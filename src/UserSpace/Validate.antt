-- ===== src/UserSpace/Validate.antt =====
-- The range check decides exactly whether every page of the range is open to the user.
use scdk.Base.{
  ℕ, zero, suc, ◌+◌, ◌-◌, ◌*◌, ◌/◌, ◌^◌, ◌≤◌, ◌<◌, ◌≡◌, ◌≢◌, ◌⊎◌, refl, inl, inr, bit_and, Bool,
  false, arith, ◌==◌, leb, some, Option-cases, Bool-cases, ◌↔◌, ap, List, length,
}
use scdk.Status.{ok, Result-cases}
use scdk.UserSpace.{
  UserSpace, map_user, map_write, page_size, page_of, user_virt_base, user_virt_top,
  checked_user_end, check_page, check_pages, validate_range, copy_from, read_bytes,
}

-- A range that passes the first test starts and ends in user space, and does not wrap.
pub checked_user_end-eq-some :
    (p n : ℕ) {last : ℕ}
    → n < 2 ^ 64
    → checked_user_end p n ≡ some last
    → (last + 1 ≡ p + n) × (0 < n) × (user_virt_base ≤ p) × (p + n ≤ user_virt_top)
unfolding checked_user_end
checked_user_end-eq-some p n lt h = (ground arith, ground arith, ground arith, ground arith)

checked_user_end-some :
    (p n : ℕ)
    → 0 < n
    → user_virt_base ≤ p
    → p + n ≤ user_virt_top
    → checked_user_end p n ≡ some (p + n - 1)
unfolding checked_user_end
checked_user_end-some p n pos lo hi = ground arith

length-read_bytes : (u : UserSpace) (a n : ℕ) → length (read_bytes u a n) ≡ n
unfolding read_bytes
length-read_bytes u a zero = refl
length-read_bytes u a (suc n) = ap suc (length-read_bytes u (a + 1) n)

module _ (u : UserSpace) (writable : Bool) where
  -- The loop succeeds, given a round for each page, exactly when each page passes.
  check_pages-eq-ok :
      (fuel page last : ℕ)
      → check_pages fuel u writable (page * page_size) last ≡ ok tt
      → (q : ℕ) → page ≤ q
      → q ≤ last / page_size
      → check_page u writable (q * page_size) ≡ ok tt
  unfolding check_pages
  check_pages-eq-ok zero page last h q lo hi = absurd (cc)
  check_pages-eq-ok (suc fuel) page last h q lo hi =
      let next : page * page_size + page_size ≡ (page + 1) * page_size = omega arith in
      elim (Bool-cases (page == q)) [
        | inl here ↦ let e : page ≡ q = ground arith in ground arith
        | inr later ↦
            let lt : page < q = ground arith in
            let more : leb (page_of last) (page * page_size) ≡ false = ground arith in
            check_pages-eq-ok fuel (page + 1) last (ground (arith, more)) q (omega arith) hi
      ]

  check_pages-ok :
      (fuel page last : ℕ)
      → page ≤ last / page_size
      → last / page_size < page + fuel
      → ((q : ℕ) → page ≤ q → q ≤ last / page_size → check_page u writable (q * page_size) ≡ ok tt)
      → check_pages fuel u writable (page * page_size) last ≡ ok tt
  unfolding check_pages
  check_pages-ok zero page last lo hi all = absurd (omega arith)
  check_pages-ok (suc fuel) page last lo hi all =
      let next : page * page_size + page_size ≡ (page + 1) * page_size = omega arith in
      let first = all page (omega arith) lo in
      elim (Bool-cases (leb (page_of last) (page * page_size))) [
        | inl done ↦ rw (first, done) refl
        | inr more ↦
            let lt : page < last / page_size = ground arith in
            let rest =
              check_pages-ok fuel (page + 1) last (omega arith) (omega arith)
                (λ q a b. all q (omega arith) b) in
            rw (first, more, next) rest
      ]

-- A page has flags, the one for the user is set, and the one for writing too if that is asked for.
abbrev pub IsOpen : UserSpace → Bool → ℕ → Type 0
IsOpen u writable page =
    (flags : ℕ) × (u.flags_at page ≡ ok flags)
    × (bit_and flags map_user ≢ 0)
    × ((writable ≡ false) ⊎ (bit_and flags map_write ≢ 0))

module _ (u : UserSpace) (writable : Bool) (page : ℕ) where
  check_page-IsOpen : check_page u writable page ≡ ok tt → IsOpen u writable page
  unfolding check_page
  check_page-IsOpen h = elim (Result-cases (u.flags_at page)) [
    | inr (e, bad) ↦ absurd (ground arith)
    | inl (flags, there) ↦ elim (Bool-cases writable) [
      | inl asked ↦ (flags, there, ground arith, inr (ground arith))
      | inr free ↦ (flags, there, ground arith, inl free)
    ]
  ]

  IsOpen-check_page : IsOpen u writable page → check_page u writable page ≡ ok tt
  unfolding check_page
  IsOpen-check_page (flags, there, user, inl free) = ground arith
  IsOpen-check_page (flags, there, user, inr write) = ground arith

-- The range check succeeds exactly when the range lies in user space and each page that it touches
-- is mapped for the user, and for writing if that is asked for. So the loop never runs short.
pub validate_range_iff :
    (u : UserSpace) (p n : ℕ) (writable : Bool)
    → n < 2 ^ 64
    → (validate_range u p n writable ≡ ok tt) ↔ (
        (0 < n)
        × (user_virt_base ≤ p)
        × (p + n ≤ user_virt_top)
        × ((q : ℕ)
            → p / page_size ≤ q
            → q ≤ (p + n - 1) / page_size
            → IsOpen u writable (q * page_size)))
unfolding validate_range
validate_range_iff u p n writable lt = (there, back)
  where
    there :
        validate_range u p n writable ≡ ok tt
        → (0 < n)
          × (user_virt_base ≤ p)
          × (p + n ≤ user_virt_top)
          × ((q : ℕ)
              → p / page_size ≤ q
              → q ≤ (p + n - 1) / page_size
              → IsOpen u writable (q * page_size))
    there h = elim (Option-cases (checked_user_end p n)) [
      | inl outside ↦ absurd (ground arith)
      | inr (last, inside) ↦
          let r = checked_user_end-eq-some p n lt inside in
          (
            r.1,
            r.2,
            r.3,
            λ q lo hi. check_page-IsOpen u writable (q * page_size) (
                check_pages-eq-ok u writable (last / page_size - p / page_size + 1) (p / page_size)
                  last (ground arith) q lo (omega arith)),
          )
    ]

    back :
        (0 < n)
          × (user_virt_base ≤ p)
          × (p + n ≤ user_virt_top)
          × ((q : ℕ)
              → p / page_size ≤ q
              → q ≤ (p + n - 1) / page_size
              → IsOpen u writable (q * page_size))
        → validate_range u p n writable ≡ ok tt
    back h =
        let inside = checked_user_end-some p n h.0 h.1 h.2 in
        rw (inside, validate_range)
          (check_pages-ok u writable _ (p / page_size) (p + n - 1) (omega arith) (omega arith)
            (λ q lo hi. IsOpen-check_page u writable (q * page_size) (h.3 q lo hi)))

-- Bytes are copied only from a range that passes, and then they are the bytes there.
pub copy_from-eq-ok :
    (u : UserSpace) (p n : ℕ) (dst : Bool) {bs : List ℕ}
    → copy_from u p dst n ≡ ok bs
    → (validate_range u p n false ≡ ok tt) × (bs ≡ read_bytes u p n) × (length bs ≡ n)
unfolding copy_from
copy_from-eq-ok u p n dst h = elim (Result-cases (validate_range u p n false)) [
  | inr (e, bad) ↦ absurd (ground arith)
  | inl (t, good) ↦ (ground arith, ground arith, ground (arith, length-read_bytes u p n))
]
