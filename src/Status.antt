-- ===== src/Status.antt =====
-- src/include/scdk/status.h: a call's status, and the value that a successful call returns beside it.
use scdk.Base.{arith, ℕ, ◌-◌, ◌^◌, ◌≡◌, refl, ◌⊎◌, inl, inr, Bool, true, false}

pub data Error : Type 0 where
  inval nomem noent perm bounds busy notsup : Error

-- `ok a` is SCDK_OK, with what the code writes through its out pointer.
pub data Result {ℓ} (A : Type ℓ) : Type ℓ where
  ok : A → Result A
  err : Error → Result A

-- A function that returns a status alone.
abbrev pub Status : Type 0
Status = Result (Unit {0})

-- The number of an error, negated.
unfoldable pub error_number : Error → ℕ
error_number inval = 1
error_number nomem = 2
error_number noent = 3
error_number perm = 4
error_number bounds = 5
error_number busy = 6
error_number notsup = 7

-- `(uint64_t)status`
unfoldable pub status_word {ℓ} : {A : Type ℓ} → Result A → ℕ
unfolding error_number
status_word (ok a) = 0
status_word (err e) = 2 ^ 64 - error_number e

-- `if (status != SCDK_OK) return status;` between two steps that change no state.
infixl 5 ◌>>=◌ ◌>>◌
abbrev pub ◌>>=◌ {ℓ κ} : {A : Type ℓ} {B : Type κ} → Result A → (A → Result B) → Result B
ok a >>= f = f a
err e >>= f = err e

abbrev pub ◌>>◌ {ℓ} : {B : Type ℓ} → Status → Result B → Result B
m >> k = m >>= λ _. k

-- `if (!condition) return error;`
abbrev pub guard : Bool → Error → Status
guard true e = ok tt
guard false e = err e

-- The same before steps that change the state `s`: a failure leaves it.
abbrev pub checked {ℓ κ ι} :
    {A : Type ℓ} {B : Type κ} {S : Type ι} → Result A → S → (A → Result B × S) → Result B × S
checked (ok a) s f = f a
checked (err e) s f = (err e, s)

-- The steps after one that may have changed the state; a failure keeps what it left.
abbrev pub chained {ℓ κ ι} :
    {A : Type ℓ} {B : Type κ} {S : Type ι} → Result A × S → (A → S → Result B × S) → Result B × S
chained (ok a, s) f = f a s
chained (err e, s) f = (err e, s)

pub Result-cases {ℓ} :
    {A : Type ℓ} (r : Result A) → ((a : A) × (r ≡ ok a)) ⊎ ((e : Error) × (r ≡ err e))
Result-cases (ok a) = inl (a, refl)
Result-cases (err e) = inr (e, refl)

-- The parts of a chain that succeeds.
pub chained-eq-ok {ℓ κ ι} :
    {A : Type ℓ} {B : Type κ} {S : Type ι} (r : Result A × S) (f : A → S → Result B × S) {b : B}
    → (chained r f).0 ≡ ok b
    → (a : A) × (r.0 ≡ ok a) × ((f a r.1).0 ≡ ok b)
chained-eq-ok (ok a, s) f h = (a, refl, h)
chained-eq-ok (err e, s) f h = absurd (ground arith)

-- The same, with the states.
pub chained_split {ℓ κ ι} :
    {A : Type ℓ} {B : Type κ} {S : Type ι} (r : Result A × S) (f : A → S → Result B × S) {b : B}
    {s' : S}
    → chained r f ≡ (ok b, s')
    → (a : A) × (s : S) × (r ≡ (ok a, s)) × (f a s ≡ (ok b, s'))
chained_split (ok a, s) f h = (a, s, refl, h)
chained_split (err e, s) f h = absurd (ground arith)
