-- ===== src/Ring/Access.antt =====
-- Rings behind their capabilities: what creating, binding and revoking do to the lookups.
use scdk.Base.{
  ℕ, ◌-◌, ◌%◌, ◌^◌, ◌<◌, ◌≤◌, ◌≡◌, ◌≢◌, refl, sym, ◌∙◌, ap, subst, inl, inr, Bool, true, not, ◌||◌,
  arith, ◌==◌, ltb, bit_or, List, length, Option-cases, Bool-cases, update, update_self, find_slot,
  find_slot-eq-some,
}
use scdk.Status.{Result, ok, err, noent, Result-cases}
use scdk.Object
use scdk.Object.{Pointer, element, ring_table, obj_ring, obj_endpoint}
use scdk.Cap
use scdk.Cap.{CapEntry, CapSpace, has_rights, right_read, right_write, right_bind, right_send}
use scdk.Cap.Laws.{IsValid, check-lookup}
use scdk.Cap.Stale
use scdk.Cap.Stale.{Op}
use scdk.Cap.Growth.{Grows, same, Minted, check-Minted, object-Minted, new_object-cases}
use scdk.Kernel.{Kernel, Ring, max_rings, ring_max_entries}
use scdk.Ring.{
  lookup, ring_at, with_ring, fresh_ring, occupy, create, check_bound, bind_target, bound_target,
}
use scdk.Ring.Refine as Rings

abbrev ring_rights : ℕ
ring_rights = bit_or right_read (bit_or right_write right_bind)

-- A successful creation: a new object, its token, and an empty ring in the slot behind them.
pub record Installed (k : Kernel) (entries bound cap : ℕ) (k' : Kernel) : Type 0 where
  pub core : ℕ
  pub slot : ℕ
  pub id : ℕ
  pub in_table : slot < max_rings
  pub some_entries : 0 < entries
  pub few_entries : entries ≤ ring_max_entries
  pub was_free : (k.rings slot).object_id ≡ 0
  pub minted : Minted obj_ring core (element ring_table slot) ring_rights id cap k'.space
  pub grows : Grows k.space k'.space
  pub filled :
      k'.rings
      ≡ update k.rings slot
          (record { object_id = id; ring = fresh_ring (k.rings slot).ring entries bound })

abbrev Outcome : Kernel → ℕ → ℕ → Result ℕ × Kernel → Type 0
Outcome k entries bound (err e, k') = Grows k.space k'.space
Outcome k entries bound (ok cap, k') = Installed k entries bound cap k'

occupy-Outcome :
    (k : Kernel) (i core entries bound : ℕ)
    → i < max_rings
    → 0 < entries
    → entries ≤ ring_max_entries
    → (k.rings i).object_id ≡ 0
    → Outcome k entries bound (occupy k i core entries bound)
unfolding occupy
occupy-Outcome k i core entries bound lt pos few free =
    new_object-cases _ _ _ k.space obj_ring core (element ring_table i) ring_rights
      (Outcome k entries bound) (λ e t g. g)
      (λ id cap t g m. record {
        core = core;
        slot = i;
        id = id;
        in_table = lt;
        some_entries = pos;
        few_entries = few;
        was_free = free;
        minted = m;
        grows = g;
        filled = refl;
      })
      (λ e id t g. g)

create-Outcome :
    (k : Kernel) (core entries bound : ℕ) (out : Bool)
    → Outcome k entries bound (create k core entries bound out)
unfolding create
create-Outcome k core entries bound out =
    elim (Bool-cases (entries == 0 || ltb ring_max_entries entries || not out)) [
      | inl bad ↦ rw bad same
      | inr good ↦ elim (Result-cases (check_bound k bound)) [
        | inr (e, refused) ↦ rw (good, refused) same
        | inl (u, allowed) ↦
            elim (Option-cases (find_slot (λ i. (k.rings i).object_id == 0) max_rings 0)) [
              | inl full ↦ rw (good, allowed, full) same
              | inr (i, found) ↦
                  let r = find_slot-eq-some (λ i. (k.rings i).object_id == 0) max_rings 0 found in
                  rw (good, allowed, found)
                    (occupy-Outcome k i core entries bound (omega arith) (ground arith)
                      (ground arith) (ground arith))
            ]
      ]
    ]

lookup-at :
    (k : Kernel) {core i id cap required : ℕ}
    → Minted obj_ring core (element ring_table i) ring_rights id cap k.space
    → required ≢ 0
    → has_rights ring_rights required ≡ true
    → (k.rings i).object_id ≡ id
    → lookup k cap required ≡ ok i
unfolding lookup
lookup-at k {required = required} m pos within owner =
    rw (check-Minted required m pos within)
      (rw (object-Minted m) (rw m.payload (ground (arith, owner, m.named))))

fresh-IsValid :
    (old : Ring) (entries bound : ℕ)
    → 0 < entries
    → entries ≤ ring_max_entries
    → 2 ^ 32 % entries ≡ 0
    → Rings.IsValid (fresh_ring old entries bound)
fresh-IsValid old entries bound pos few d = record {
  some_entries = pos;
  few_entries = few;
  divides = d;
  submits = record { head_small = omega arith; tail_small = omega arith; fits = omega arith };
  completes = record { head_small = omega arith; tail_small = omega arith; fits = omega arith };
}

-- A new ring's token passes each lookup for READ, WRITE or BIND, to an empty ring of the size asked
-- for, bound to the target given; it is valid where that size divides 2 ^ 32.
lookup-create :
    (k : Kernel) (core entries bound required : ℕ) (out : Bool) {cap : ℕ} {k' : Kernel}
    → create k core entries bound out ≡ (ok cap, k')
    → required ≢ 0
    → has_rights (bit_or right_read (bit_or right_write right_bind)) required ≡ true
    → (i : ℕ) × (lookup k' cap required ≡ ok i)
      × ((k'.rings i).ring ≡ fresh_ring (k.rings i).ring entries bound)
      × (2 ^ 32 % entries ≡ 0 → Rings.IsValid (k'.rings i).ring)
lookup-create k core entries bound required out {cap} {k'} h pos within =
    let i = subst (Outcome k entries bound) h (create-Outcome k core entries bound out) in
    let slot = ap (λ f. f i.slot) i.filled ∙ update_self k.rings i.slot _ in
    let ring = ap (λ x. x.ring) slot in
    (
      i.slot,
      lookup-at k' i.minted pos within (ap (λ x. x.object_id) slot),
      ring,
      λ d.
          subst Rings.IsValid (sym ring)
            (fresh-IsValid (k.rings i.slot).ring entries bound i.some_entries i.few_entries d),
    )

lookup-with_ring :
    (k : Kernel) (i : ℕ) (r : Ring) (cap required : ℕ)
    → lookup (with_ring k i r) cap required ≡ lookup k cap required
unfolding lookup
lookup-with_ring k i r cap required = ground arith

-- A lookup that succeeds finds the slot of the object behind the token.
pub record Found (k : Kernel) (cap required i : ℕ) : Type 0 where
  pub entry : CapEntry
  pub checked : Cap.check k.space cap required obj_ring ≡ ok entry
  pub object : Object.Object
  pub there : Object.lookup k.space.objects entry.object_id true ≡ ok object
  pub payload : ring_at object.payload ≡ ok i
  pub owned : (k.rings i).object_id ≡ entry.object_id

pub lookup-Found :
    (k : Kernel) (cap required : ℕ) {i : ℕ} → lookup k cap required ≡ ok i → Found k cap required i
unfolding lookup
lookup-Found k cap required {i} h = elim (Result-cases (Cap.check k.space cap required obj_ring)) [
  | inr (e, bad) ↦ absurd (ground arith)
  | inl (entry, good) ↦ elim (Result-cases (Object.lookup k.space.objects entry.object_id true)) [
    | inr (e, bad) ↦ absurd (ground arith)
    | inl (object, there) ↦ elim (Result-cases (ring_at object.payload)) [
      | inr (e, bad) ↦ absurd (ground arith)
      | inl (j, at) ↦
          let same : j ≡ i = ground arith in
          record {
            entry = entry;
            checked = good;
            object = object;
            there = there;
            payload = at ∙ ap ok same;
            owned = ground arith;
          }
    ]
  ]
]

-- Whatever rights two lookups of a token ask for, they find one ring.
pub lookup_unique :
    (k : Kernel) (cap a b : ℕ) {i j : ℕ} → lookup k cap a ≡ ok i → lookup k cap b ≡ ok j → i ≡ j
lookup_unique k cap a b {i} {j} p q =
    let f = lookup-Found k cap a p in
    let g = lookup-Found k cap b q in
    let same : f.entry ≡ g.entry = cc (
      check-lookup k.space cap a obj_ring f.checked,
      check-lookup k.space cap b obj_ring g.checked,
    ) in
    let same_object : f.object ≡ g.object =
      cc (f.there, g.there, ap (λ e. Object.lookup k.space.objects e.object_id true) same) in
    cc (f.payload, g.payload, ap (λ o. ring_at o.payload) same_object)

-- A ring bound to an endpoint answers with that endpoint.
pub bound_target-bind_target :
    (k : Kernel) (cap target : ℕ) {i : ℕ} {k' : Kernel}
    → bind_target k cap target ≡ (ok tt, k')
    → lookup k cap right_read ≡ ok i
    → bound_target k' cap true ≡ ok target
unfolding bind_target bound_target
bound_target-bind_target k cap target {i} {k'} h readable =
    elim (Result-cases (Cap.check k.space target right_send obj_endpoint)) [
      | inr (e, bad) ↦ absurd (ground arith)
      | inl (entry, good) ↦ elim (Result-cases (lookup k cap right_bind)) [
        | inr (e, bad) ↦ absurd (ground arith)
        | inl (j, found) ↦
            let one = lookup_unique k cap right_read right_bind readable found in
            let r : Ring = record ((k.rings j).ring) { bound_target = target } in
            let after : k' ≡ with_ring k j r = ground arith in
            let again = lookup-with_ring k j r cap right_read in rw (after, again) (ground arith)
      ]
    ]

-- A ring whose target is revoked refuses to name it, at once and after any further history of fewer
-- than 2 ^ 32 - 2 calls on the capability space.
bound_target_revoked :
    (k k' : Kernel) (cap target : ℕ) (ops : List Op) {i : ℕ} {e : CapEntry}
    → IsValid k.space
    → Cap.lookup k.space target ≡ ok e
    → length ops < 2 ^ 32 - 2
    → k'.space ≡ Stale.run (Cap.revoke k.space target).1 ops
    → lookup k' cap right_read ≡ ok i
    → (k'.rings i).ring.bound_target ≡ target
    → bound_target k' cap true ≡ err noent
unfolding bound_target
bound_target_revoked k k' cap target ops {i} {e} v h few hist there bound =
    let fails : Cap.check k'.space target right_send obj_endpoint ≡ err noent =
      subst (λ s. Cap.check s target right_send obj_endpoint ≡ err noent) (sym hist)
        (Stale.check-run-revoke k.space target right_send obj_endpoint ops v h few (omega arith)) in
    let some_target = Stale.lookup-cap-ne-zero k.space target h in ground arith
