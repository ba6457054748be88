-- ===== src/Base/Tables.antt =====
-- A static array of the kernel, as the function from an index to its element, and the loop that
-- looks for the first element a test accepts. The code reads and writes below the array's size only.
use Prim.Native.Nat.{ℕ, zero, suc, ◌+◌, ◌≤◌, ◌<◌}
use mathlib.Core.Path.{◌≡◌}
use mathlib.Core.Logic.{◌≢◌, inl, inr}
use mathlib.Core.Bool.{Bool, true, false}
use mathlib.Core.Option.{Option, none, some}
use native.Mathlib.Omega.{arith}
use scdk.Base.Tests.{◌==◌, if◌then◌else◌, Bool-cases}

-- `table[i] = v`
abbrev pub update {ℓ} : {A : Type ℓ} → (ℕ → A) → ℕ → A → ℕ → A
update f i v j = if i == j then v else f j

pub update_self {ℓ} : {A : Type ℓ} (f : ℕ → A) (i : ℕ) (v : A) → update f i v i ≡ v
update_self f i v = ground arith

pub update_ne {ℓ} : {A : Type ℓ} (f : ℕ → A) (i j : ℕ) (v : A) → i ≢ j → update f i v j ≡ f j
update_ne f i j v h = ground arith

-- `for (i = from; i < from + n; i++) if (accept(i)) ...`: the first index that passes.
unfoldable pub find_slot : (ℕ → Bool) → ℕ → ℕ → Option ℕ
find_slot accept zero from = none
find_slot accept (suc n) from = elim (accept from) [
  | true ↦ some from
  | false ↦ find_slot accept n (from + 1)
]

pub find_slot-eq-some :
    (accept : ℕ → Bool) (n from : ℕ) {i : ℕ}
    → find_slot accept n from ≡ some i
    → (accept i ≡ true) × (from ≤ i) × (i < from + n)
unfolding find_slot
find_slot-eq-some accept zero from h = absurd (cc)
find_slot-eq-some accept (suc n) from {i} h = elim (Bool-cases (accept from)) [
  | inl e ↦ let same : from ≡ i = ground arith in (ground arith, omega arith, omega arith)
  | inr e ↦
      let r = find_slot-eq-some accept n (from + 1) {i = i} (ground arith) in
      (r.0, omega arith, omega arith)
]

-- No index passes exactly when the loop runs to its end.
pub find_slot-eq-none :
    (accept : ℕ → Bool) (n from : ℕ)
    → find_slot accept n from ≡ none
    → (i : ℕ) → from ≤ i
    → i < from + n
    → accept i ≡ false
unfolding find_slot
find_slot-eq-none accept zero from h i lo hi = absurd (omega arith)
find_slot-eq-none accept (suc n) from h i lo hi = elim (Bool-cases (accept from)) [
  | inl e ↦ absurd (ground arith)
  | inr e ↦ elim (Bool-cases (from == i)) [
    | inl same ↦ ground arith
    | inr other ↦
        find_slot-eq-none accept n (from + 1) (ground arith) i (ground arith) (omega arith)
  ]
]

-- The only index that passes is the one found.
pub find_slot_unique :
    (accept : ℕ → Bool) (n from i : ℕ)
    → accept i ≡ true
    → from ≤ i
    → i < from + n
    → ((j : ℕ) → from ≤ j → j < i → accept j ≡ false)
    → find_slot accept n from ≡ some i
unfolding find_slot
find_slot_unique accept zero from i hit lo hi miss = absurd (omega arith)
find_slot_unique accept (suc n) from i hit lo hi miss = elim (Bool-cases (from == i)) [
  | inl same ↦ let e : from ≡ i = ground arith in ground arith
  | inr other ↦
      let rest =
        find_slot_unique accept n (from + 1) i hit (ground arith) (omega arith)
          (λ j a b. miss j (omega arith) b) in
      let skip = miss from (omega arith) (ground arith) in ground arith
]
