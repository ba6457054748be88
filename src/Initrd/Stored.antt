-- ===== src/Initrd/Stored.antt =====
-- The files that `parse_tar_image` remembers lie in the image one after the other.
use scdk.Base.{
  ℕ, zero, suc, ◌+◌, ◌/◌, ◌^◌, ◌≤◌, ◌<◌, ◌≡◌, refl, sym, ◌∙◌, subst, false, not, ◌||◌, some, ltb,
  ◌==◌, update, List, length, inl, inr, arith, Bool-cases,
}
use mathlib.Core.Option.{some-injective}
use scdk.Status.{ok, err, Result-cases}
use scdk.Initrd.{Initrd, Entry, remember_file, max_path, max_files}
use scdk.Initrd.Archive.{
  normalize_path, take_file, is_file, block_size, round, goes_on, ended, size_at, size_size,
  counted, cleared, parse_from, parse_image,
}
use scdk.Initrd.Ends.{round-goes_on, Round-cases}
use scdk.Initrd.Octal.{parse_octal-lt}
use scdk.Initrd.Bounds.{PathFits, normalize_path-PathFits}

-- A file whose bytes lie between the addresses `first` and `end`.
pub record Inside (first end : ℕ) (e : Entry) : Type 0 where
  pub path_fits : PathFits e.path
  pub path_named : 1 < length e.path
  pub after_first : first ≤ e.start
  pub before_end : e.start + e.size ≤ end

-- The table after the bytes from `first` to `end` are read: its files lie there, in order and apart.
pub record Stored (first end : ℕ) (t : Initrd) : Type 0 where
  pub few : t.count ≤ max_files
  pub inside : (i : ℕ) → i < t.count → Inside first end (t.files i)
  pub apart :
      (i j : ℕ) → i < j → j < t.count → (t.files i).start + (t.files i).size ≤ (t.files j).start

Inside-later :
    {first end : ℕ} (end' : ℕ) {e : Entry} → end ≤ end' → Inside first end e → Inside first end' e
Inside-later end' le i = record {
  path_fits = i.path_fits;
  path_named = i.path_named;
  after_first = i.after_first;
  before_end = omega (arith, i.before_end);
}

pub Stored-later :
    {first end : ℕ} (end' : ℕ) {t : Initrd} → end ≤ end' → Stored first end t → Stored first end' t
Stored-later end' le s = record {
  few = s.few;
  inside = λ i lt. Inside-later end' le (s.inside i lt);
  apart = s.apart;
}

module _ (first end : ℕ) (t t' : Initrd) (path : List ℕ) (start size : ℕ) where
  remember_file-Stored :
      first ≤ end
      → end ≤ start
      → PathFits path
      → 1 < length path
      → Stored first end t
      → remember_file t path start size ≡ (ok tt, t')
      → Stored first (start + size) t'
  unfolding remember_file
  remember_file-Stored order after fits named s h =
      elim (Bool-cases (start == 0 || not (ltb t.count max_files))) [
        | inl full ↦ absurd (ground arith)
        | inr room ↦
            let e : Entry = record { path = path; start = start; size = size; flags = 0 } in
            let same : record t { files = update t.files t.count e; count = t.count + 1 } ≡ t' =
              ground arith in
            subst (Stored first (start + size)) same (record {
              few = ground arith;
              inside = λ i lt. elim (Bool-cases (t.count == i)) [
                | inl new ↦
                    rw (new, update)
                      (record {
                        path_fits = fits;
                        path_named = named;
                        after_first = omega arith;
                        before_end = omega arith;
                      })
                | inr old ↦
                    rw (old, update)
                      (Inside-later (start + size) (omega arith) (s.inside i (ground arith)))
              ];
              apart = λ i j lt lt'. elim (Bool-cases (t.count == j)) [
                | inl new ↦
                    let below : i < t.count = ground arith in
                    let other : (t.count == i) ≡ false = ground arith in
                    let early = (s.inside i below).before_end in
                    rw (new, other, update) (omega arith)
                | inr old ↦
                    let below : j < t.count = ground arith in
                    let other : (t.count == i) ≡ false = ground arith in
                    rw (old, other, update) (s.apart i j lt below)
              ];
            })
      ]

module _ (first end : ℕ) (t t' : Initrd) (start size : ℕ) where
  take_file-Stored :
      (mem : ℕ → ℕ) (header : ℕ)
      → first ≤ end
      → end ≤ start
      → Stored first end t
      → take_file mem t header start size ≡ (ok tt, t')
      → Stored first (start + size) t'
  unfolding take_file
  take_file-Stored mem header order after s h = elim (Bool-cases (is_file mem header)) [
    | inr other ↦
        let same : t ≡ t' = ground arith in
        subst (Stored first (start + size)) same (Stored-later (start + size) (omega arith) s)
    | inl file ↦ elim (Result-cases (normalize_path mem header max_path)) [
      | inr (e, bad) ↦ absurd (ground arith)
      | inl (path, e) ↦
          let (fits, named) = normalize_path-PathFits mem header path e in
          let go : take_file mem t header start size ≡ remember_file t path start size =
            rw (file, e, take_file) refl in
          remember_file-Stored first end t t' path start size order after fits named s (sym go ∙ h)
    ]
  ]

-- What a round that goes on leaves.
round-Stored :
    (mem : ℕ → ℕ) (base size : ℕ) (fits : size < 2 ^ 63) (offset offset' : ℕ) (t t' : Initrd)
    → offset ≤ size
    → Stored base (base + offset) t
    → round mem base size offset t ≡ goes_on offset' t'
    → Stored base (base + offset') t'
round-Stored mem base size fits offset offset' t t' inside s h =
    let (n, octal, file, sum, inside') =
      round-goes_on mem base size fits offset offset' t t' inside h in
    let small = parse_octal-lt mem (base + offset + size_at) size_size n octal in
    Stored-later (base + offset') (omega arith) (
      take_file-Stored base (base + offset) t t' (base + (offset + block_size)) n mem
        (base + offset) (omega arith) (omega arith) s file)

counted-Stored :
    {first end : ℕ} (t : Initrd) {t' : Initrd}
    → Stored first end t
    → counted t ≡ (ok tt, t')
    → Stored first end t' × (0 < t'.count)
counted-Stored {first} {end} t {t'} s h =
    let same : t ≡ t' = ground arith in
    subst (λ u. Stored first end u × (0 < u.count)) same (s, ground arith)

parse_from-Stored :
    (fuel : ℕ) (mem : ℕ → ℕ) (base size offset : ℕ) (t t' : Initrd)
    → size < 2 ^ 63
    → offset ≤ size
    → Stored base (base + offset) t
    → parse_from fuel mem base size offset t ≡ some (ok tt, t')
    → Stored base (base + size) t' × (0 < t'.count)
unfolding parse_from
parse_from-Stored zero mem base size offset t t' fits inside s h = absurd (ground arith)
parse_from-Stored (suc fuel) mem base size offset t t' fits inside s h =
    elim (Round-cases (round mem base size offset t)) [
      | inl (offset', u, e) ↦
          let (n, octal, file, sum, inside') =
            round-goes_on mem base size fits offset offset' t u inside e in
          parse_from-Stored fuel mem base size offset' u t' fits inside'
            (round-Stored mem base size fits offset offset' t u inside s e) (on e ∙ h)
      | inr (inl e) ↦
          counted-Stored t (Stored-later (base + size) (omega arith) s)
            (some-injective (counted t) (ok tt, t') (stop e ∙ h))
      | inr (inr (r, u, e)) ↦
          let bad : some (err r, u) ≡ parse_from (suc fuel) mem base size offset t =
            rw (e, parse_from) refl in
          absurd (ground arith)
    ]
  where
    on :
        {offset' : ℕ} {u : Initrd}
        → round mem base size offset t ≡ goes_on offset' u
        → parse_from fuel mem base size offset' u ≡ parse_from (suc fuel) mem base size offset t
    on e = rw (e, parse_from) refl

    stop :
        round mem base size offset t ≡ ended
        → some (counted t) ≡ parse_from (suc fuel) mem base size offset t
    stop e = rw (e, parse_from) refl

cleared-Stored : (base : ℕ) (t : Initrd) → Stored base base (cleared t)
cleared-Stored base t = record {
  few = omega arith;
  inside = λ i lt. absurd (omega arith);
  apart = λ i j lt lt'. absurd (omega arith);
}

-- When the reader takes an image of less than 2 ^ 63 bytes, it remembers one file at least and 32
-- at most; the bytes of each lie within the image, those of an earlier file before those of a later
-- one; and each file's path is absolute, names more than the root, and fits the 128 bytes of its
-- entry with its end mark.
pub parse_image-Stored :
    (mem : ℕ → ℕ) (t : Initrd) (base size : ℕ) (t' : Initrd)
    → size < 2 ^ 63
    → parse_image mem t base size ≡ some (ok tt, t')
    → Stored base (base + size) t' × (0 < t'.count)
unfolding parse_image
parse_image-Stored mem t base size t' fits h =
    elim (Bool-cases (base == 0 || ltb size block_size)) [
      | inl bad ↦ absurd (ground arith)
      | inr good ↦
          parse_from-Stored (size / block_size + 1) mem base size 0 (cleared t) t' fits
            (omega arith) (Stored-later (base + 0) (omega arith) (cleared-Stored base t))
            (ground arith)
    ]
