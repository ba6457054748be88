-- ===== src/Initrd/Ends.antt =====
-- The loop of `parse_tar_image` ends: a round goes on only if it has moved by a block at least, and
-- stays inside the image.
use scdk.Base.{
  ℕ, zero, suc, ◌+◌, ◌-◌, ◌*◌, ◌/◌, ◌%◌, ◌^◌, ◌≤◌, ◌<◌, ◌≡◌, ◌≢◌, ◌⊎◌, Option-cases, refl, sym, ◌∙◌,
  false, ◌||◌, none, some, ltb, ◌==◌, inl, inr, arith, Bool-cases,
}
use scdk.Status.{Error, Result, Status, ok, err, inval}
use scdk.Initrd.{Initrd}
use scdk.Initrd.Archive.{
  Round, ended, failed, goes_on, round, sized, after_file, parse_octal, parse_from, parse_image,
  memory_is_zero, take_file, block_size, size_at, size_size, padded_size, cleared,
}

module _ (mem : ℕ → ℕ) (base size : ℕ) (fits : size < 2 ^ 63) (offset offset' : ℕ)
    (t t' : Initrd) where
  after_file-goes_on :
      (r : Status × Initrd) (next_offset : ℕ)
      → after_file r next_offset ≡ goes_on offset' t'
      → (r ≡ (ok tt, t')) × (next_offset ≡ offset')
  after_file-goes_on (ok tt, s) o h = (ground arith, ground arith)
  after_file-goes_on (err e, s) o h = absurd (ground arith)

  pub sized-goes_on :
      (r : Result ℕ)
      → offset + block_size ≤ size
      → sized mem base size offset t r ≡ goes_on offset' t'
      → (n : ℕ) × (r ≡ ok n)
        × (take_file mem t (base + offset) (base + (offset + block_size)) n ≡ (ok tt, t'))
        × (offset + block_size + padded_size n ≡ offset')
        × (offset' ≤ size)
  sized-goes_on (err e) inside h = absurd (ground arith)
  sized-goes_on (ok n) inside h =
      let place : (offset + block_size) % 2 ^ 64 ≡ offset + block_size = omega arith in
      let first : ltb size (offset + block_size) ≡ false = ground arith in
      elim (Bool-cases (ltb (size - (offset + block_size)) (padded_size n))) [
        | inl long ↦ absurd (ground arith)
        | inr room ↦
            let room' : padded_size n ≤ size - (offset + block_size) = ground arith in
            let end : (offset + block_size + padded_size n) % 2 ^ 64
                ≡ offset + block_size + padded_size n =
              omega arith in
            let file = take_file mem t (base + offset) (base + (offset + block_size)) n in
            let go : sized mem base size offset t (ok n)
                ≡ after_file file (offset + block_size + padded_size n) =
              rw (place, first, room, end) refl in
            let r : (file ≡ (ok tt, t')) × (offset + block_size + padded_size n ≡ offset') =
              after_file-goes_on file (offset + block_size + padded_size n) (sym go ∙ h) in
            (n, refl, r.0, r.1, omega (arith, r.1))
      ]

  -- The parts of a round that goes on.
  pub round-goes_on :
      offset ≤ size
      → round mem base size offset t ≡ goes_on offset' t'
      → (n : ℕ) × (parse_octal mem (base + offset + size_at) size_size ≡ ok n)
        × (take_file mem t (base + offset) (base + (offset + block_size)) n ≡ (ok tt, t'))
        × (offset + block_size + padded_size n ≡ offset')
        × (offset' ≤ size)
  unfolding round
  round-goes_on inside h =
      elim (Bool-cases (
        ltb size ((offset + block_size) % 2 ^ 64)
        || memory_is_zero mem (base + offset) block_size)) [
          | inl stop ↦ absurd (ground arith)
          | inr go ↦
              let inside : offset + block_size ≤ size = ground arith in
              sized-goes_on (parse_octal mem (base + offset + size_at) size_size) inside
                (ground arith)
        ]

pub Round-cases :
    (r : Round)
    → ((offset' : ℕ) × (t' : Initrd) × (r ≡ goes_on offset' t'))
      ⊎ ((r ≡ ended) ⊎ ((e : Error) × (t' : Initrd) × (r ≡ failed e t')))
Round-cases ended = inr (inl refl)
Round-cases (failed e t') = inr (inr (e, t', refl))
Round-cases (goes_on offset' t') = inl (offset', t', refl)

-- The loop ends with a result within one round for each block, and one more.
parse_from-ends :
    (fuel : ℕ) (mem : ℕ → ℕ) (base size offset : ℕ) (t : Initrd)
    → size < 2 ^ 63
    → offset ≤ size
    → size < offset + fuel * block_size
    → parse_from fuel mem base size offset t ≢ none
unfolding parse_from
parse_from-ends zero mem base size offset t fits inside fuel_left = absurd (omega arith)
parse_from-ends (suc fuel) mem base size offset t fits inside fuel_left =
    elim (Round-cases (round mem base size offset t)) [
      | inl (offset', t', e) ↦
          let (n, octal, file, sum, inside') =
            round-goes_on mem base size fits offset offset' t t' inside e in
          rw (e, parse_from)
            (parse_from-ends fuel mem base size offset' t' fits inside' (omega arith))
      | inr (inl e) ↦ rw (e, parse_from) (λ h. ground arith)
      | inr (inr (s, t', e)) ↦ rw (e, parse_from) (λ h. ground arith)
    ]

-- For an image of less than 2 ^ 63 bytes the archive's reader always returns a status: its loop
-- ends within one round for each block of the image, whatever the bytes are.
pub parse_image-ends :
    (mem : ℕ → ℕ) (t : Initrd) (base size : ℕ)
    → size < 2 ^ 63
    → (r : Status × Initrd) × (parse_image mem t base size ≡ some r)
unfolding parse_image
parse_image-ends mem t base size fits = elim (Bool-cases (base == 0 || ltb size block_size)) [
  | inl bad ↦ ((err inval, t), rw bad refl)
  | inr good ↦
      elim (Option-cases (parse_from (size / block_size + 1) mem base size 0 (cleared t))) [
        | inl never ↦ absurd (
            parse_from-ends (size / block_size + 1) mem base size 0 (cleared t) fits (omega arith)
              (omega arith) never)
        | inr (r, e) ↦ (r, rw good e)
      ]
]
