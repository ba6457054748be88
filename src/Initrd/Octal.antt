-- ===== src/Initrd/Octal.antt =====
-- The size field of a header: what `parse_octal` reads is the number its digits spell, and is small.
use scdk.Base.{
  ℕ, zero, suc, ◌+◌, ◌-◌, ◌*◌, ◌/◌, ◌%◌, ◌^◌, ◌<◌, ◌≡◌, refl, Bool, true, false, not, sym, ◌∙◌,
  ◌||◌, ltb, ◌==◌, inl, inr, arith, Bool-cases, subst, ap,
}
use native.Mathlib.Nat.{
  div-div-eq-div-mul, div-le_self, div-eq_of_lt, div-one, pow-suc, pow-le-pow_right,
}
use scdk.Status.{ok}
use scdk.Initrd.Archive.{octal_from, parse_octal, size_size}
use scdk.Initrd.{space}

octal_from-lt :
    (left k : ℕ) (mem : ℕ → ℕ) (at value : ℕ) (saw : Bool) (n : ℕ)
    → value < 8 ^ k
    → octal_from left mem at value saw ≡ ok n
    → n < 8 ^ (left + k)
unfolding octal_from
octal_from-lt zero k mem at value saw n small h = ground arith
octal_from-lt (suc left) k mem at value saw n small h =
    elim (Bool-cases (mem at == 0 || mem at == space)) [
      | inl end ↦
          let same : value ≡ n = ground arith in
          omega
            (arith, pow-le-pow_right {n = 8} (omega arith) {i = k} {j = suc left + k} (omega arith))
      | inr more ↦ elim (Bool-cases (ltb (mem at) 48 || ltb 55 (mem at))) [
        | inl bad ↦ absurd (ground arith)
        | inr digit ↦
            let d : mem at - 48 < 8 = ground arith in
            let v : (value * 8 + (mem at - 48)) % 2 ^ 64 < 8 ^ suc k = omega (arith, pow-suc 8 k) in
            let r =
              octal_from-lt left (suc k) mem (at + 1) ((value * 8 + (mem at - 48)) % 2 ^ 64) true n
                v (ground arith) in
            subst (λ e. n < 8 ^ e) (omega arith) r
      ]
    ]

-- A field of `size` characters holds less than `8 ^ size`.
pub parse_octal-lt : (mem : ℕ → ℕ) (at size n : ℕ) → parse_octal mem at size ≡ ok n → n < 8 ^ size
unfolding parse_octal
parse_octal-lt mem at size n h =
    subst (λ e. n < 8 ^ e) (omega arith) (octal_from-lt size 0 mem at 0 false n (omega arith) h)

-- The digits of `v` stand from `at` on, the highest of the `left` first, and an end mark follows
-- them.
record Spelled (mem : ℕ → ℕ) (at left v : ℕ) : Type 0 where
  digits : (i : ℕ) → i < left → mem (at + i) ≡ 48 + v / 8 ^ (left - 1 - i) % 8
  ended : (mem (at + left) == 0 || mem (at + left) == space) ≡ true

Spelled-rest :
    (mem : ℕ → ℕ) (at left v : ℕ) → Spelled mem at (suc left) v → Spelled mem (at + 1) left v
Spelled-rest mem at left v s = record {
  digits = λ i lt.
      ap mem (omega arith)
      ∙ s.digits (i + 1) (omega arith)
      ∙ ap (λ e. 48 + v / 8 ^ e % 8) (omega arith);
  ended = subst (λ p. (mem p == 0 || mem p == space) ≡ true) (omega arith) s.ended;
}

-- One more digit.
shift-digit : (v n : ℕ) → v / 8 ^ suc n * 8 + v / 8 ^ n % 8 ≡ v / 8 ^ n
shift-digit v n =
    let same : v / 8 ^ suc n ≡ v / 8 ^ n / 8 =
      ap (λ m. v / m) (pow-suc 8 n) ∙ sym (div-div-eq-div-mul v (8 ^ n) 8) in
    omega (arith, same)

octal_from-Spelled :
    (left : ℕ) (mem : ℕ → ℕ) (at v : ℕ) (saw : Bool)
    → v < 2 ^ 64
    → (saw || not (left == 0)) ≡ true
    → Spelled mem at left v
    → octal_from (suc left) mem at (v / 8 ^ left) saw ≡ ok v
unfolding octal_from
octal_from-Spelled zero mem at v saw small begun s =
    let end : (mem at == 0 || mem at == space) ≡ true =
      subst (λ p. (mem p == 0 || mem p == space) ≡ true) (omega arith) s.ended in
    let saw' : saw ≡ true = ground arith in rw (end, saw', octal_from) (ap ok (div-one v))
octal_from-Spelled (suc left) mem at v saw small begun s =
    let d : mem at ≡ 48 + v / 8 ^ left % 8 =
      ap mem (omega arith)
      ∙ s.digits 0 (omega arith)
      ∙ ap (λ e. 48 + v / 8 ^ e % 8) (omega arith) in
    let step : (v / 8 ^ suc left * 8 + (mem at - 48)) % 2 ^ 64 ≡ v / 8 ^ left =
      omega (arith, shift-digit v left, div-le_self v (8 ^ left)) in
    let rest =
      octal_from-Spelled left mem (at + 1) v true small refl (Spelled-rest mem at left v s) in
    let kept : (mem at == 0 || mem at == space) ≡ false = ground arith in
    let digit : (ltb (mem at) 48 || ltb 55 (mem at)) ≡ false = ground arith in
    rw (kept, digit, step, octal_from) rest

-- A field of eleven octal digits that spell a number below 8 ^ 11 and an end mark after them, which
-- is what an archive's writer stores, is read as that number.
pub parse_octal-Spelled :
    (mem : ℕ → ℕ) (at v : ℕ)
    → v < 8 ^ 11
    → ((i : ℕ) → i < 11 → mem (at + i) ≡ 48 + v / 8 ^ (10 - i) % 8)
    → (mem (at + 11) == 0 || mem (at + 11) == space) ≡ true
    → parse_octal mem at size_size ≡ ok v
unfolding parse_octal
parse_octal-Spelled mem at v small digits ended =
    let begin : v / 8 ^ 11 ≡ 0 = div-eq_of_lt small in
    subst (λ n. octal_from 12 mem at n false ≡ ok v) begin
      (octal_from-Spelled 11 mem at v false (omega arith) refl
        (record { digits = digits; ended = ended }))
