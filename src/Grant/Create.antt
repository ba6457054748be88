-- ===== src/Grant/Create.antt =====
-- What creating a grant gives: access to exactly the range and the rights asked for.
use scdk.Base.{
  ℕ, ◌+◌, ◌%◌, ◌^◌, ◌<◌, ◌≡◌, ◌≢◌, refl, ◌∙◌, ap, subst, inl, inr, Bool, true, false, not, ◌||◌,
  arith, ◌==◌, leb, if◌then◌else◌, Option-cases, Bool-cases, update, update_self, find_slot,
  find_slot-eq-some,
}
use scdk.Status.{Result, ok, err, bounds}
use scdk.Object.{element, grant_table, obj_grant, boot_core}
use scdk.Cap.{has_rights}
use scdk.Cap.Laws.{IsValid}
use scdk.Cap.Growth.{
  Grows, same, Minted, check-Minted, object-Minted, new_object-cases, Grows-IsValid,
}
use scdk.Kernel.{Kernel, Grant, max_grants}
use scdk.Grant.{lookup, beyond_mask, occupy, create, resolve, check_range}

abbrev pub fresh_grant : ℕ → ℕ → ℕ → ℕ → Grant
fresh_grant base length rights lifetime = record {
  frame_cap = 0;
  base = base;
  offset = 0;
  length = length;
  rights = rights;
  lifetime = lifetime;
  refcount = 1;
}

-- A successful creation: a new object, its token with the grant's rights, and the slot behind them.
pub record Installed (k : Kernel) (g : Grant) (cap : ℕ) (k' : Kernel) : Type 0 where
  pub slot : ℕ
  pub id : ℕ
  pub in_table : slot < max_grants
  pub was_free : (k.grants slot).object_id ≡ 0
  pub minted : Minted obj_grant boot_core (element grant_table slot) g.rights id cap k'.space
  pub grows : Grows k.space k'.space
  pub filled : k'.grants ≡ update k.grants slot (record { object_id = id; grant = g })

abbrev Outcome : Kernel → Grant → Result ℕ × Kernel → Type 0
Outcome k g (err e, k') = Grows k.space k'.space
Outcome k g (ok cap, k') = Installed k g cap k'

occupy-Outcome :
    (k : Kernel) (i base length rights lifetime : ℕ)
    → i < max_grants
    → (k.grants i).object_id ≡ 0
    → Outcome k (fresh_grant base length rights lifetime) (occupy k i base length rights lifetime)
unfolding occupy
occupy-Outcome k i base length rights lifetime lt free =
    new_object-cases _ _ _ k.space obj_grant boot_core (element grant_table i) rights
      (Outcome k (fresh_grant base length rights lifetime)) (λ e t g. g)
      (λ id cap t g m. record {
        slot = i;
        id = id;
        in_table = lt;
        was_free = free;
        minted = m;
        grows = g;
        filled = refl;
      })
      (λ e id t g. g)

pub create-Outcome :
    (k : Kernel) (base length rights lifetime : ℕ) (out : Bool)
    → Outcome k (fresh_grant base length rights lifetime) (create k base length rights lifetime out)
unfolding create
create-Outcome k base length rights lifetime out =
    elim (Bool-cases (base == 0 || length == 0 || rights == 0 || beyond_mask rights || not out)) [
      | inl bad ↦ rw bad same
      | inr good ↦ elim (Option-cases (find_slot (λ i. (k.grants i).object_id == 0) max_grants 0)) [
        | inl full ↦ rw (good, full) same
        | inr (i, found) ↦
            let r = find_slot-eq-some (λ i. (k.grants i).object_id == 0) max_grants 0 found in
            rw (good, found)
              (occupy-Outcome k i base length rights lifetime (omega arith) (ground arith))
      ]
    ]

lookup-Installed :
    (k : Kernel) (g : Grant) (cap required : ℕ) (k' : Kernel)
    → Installed k g cap k'
    → required ≢ 0
    → has_rights g.rights required ≡ true
    → lookup k' cap required ≡ ok g
unfolding lookup
lookup-Installed k g cap required k' i pos within =
    let slot : k'.grants i.slot ≡ record { object_id = i.id; grant = g } =
      ap (λ f. f i.slot) i.filled ∙ update_self k.grants i.slot _ in
    rw (check-Minted required i.minted pos within)
      (rw (object-Minted i.minted) (rw i.minted.payload (rw slot (ground (arith, i.minted.named)))))

-- With some of its READ, WRITE and MAP rights, a new grant's token resolves exactly the ranges of at
-- least one byte that lie in the memory granted, each to its place there.
pub resolve-create :
    (k : Kernel) (base length rights lifetime required offset size : ℕ) (out : Bool) {cap : ℕ}
    {k' : Kernel}
    → create k base length rights lifetime out ≡ (ok cap, k')
    → required ≢ 0
    → beyond_mask required ≡ false
    → has_rights rights required ≡ true
    → size ≢ 0
    → resolve k' cap required offset size true
      ≡ (if leb (offset + size) length then ok ((base + offset) % 2 ^ 64) else err bounds)
unfolding resolve check_range
resolve-create k base length rights lifetime required offset size out {cap} {k'} h pos known within
      bytes =
    let g = fresh_grant base length rights lifetime in
    let i = subst (Outcome k g) h (create-Outcome k base length rights lifetime out) in
    let found = lookup-Installed k g cap required k' i pos within in ground (arith, found)

-- Creating a grant keeps the capability space well formed.
pub create-IsValid :
    (k : Kernel) (base length rights lifetime : ℕ) (out : Bool)
    → IsValid k.space
    → IsValid (create k base length rights lifetime out).1.space
create-IsValid k base length rights lifetime out v =
    Grows-IsValid
      (go (create k base length rights lifetime out)
        (create-Outcome k base length rights lifetime out))
      v
  where
    go :
        (r : Result ℕ × Kernel)
        → Outcome k (fresh_grant base length rights lifetime) r
        → Grows k.space r.1.space
    go (err e, k') g = g
    go (ok cap, k') i = i.grows
