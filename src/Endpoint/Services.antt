-- ===== src/Endpoint/Services.antt =====
-- The service registry: a finite map from service ids to endpoints that only grows.
use scdk.Base.{
  ℕ, ◌<◌, ◌≡◌, ◌≢◌, ap, inl, inr, Bool, true, arith, ◌==◌, if◌then◌else◌, none, Option-cases,
  Bool-cases, update, find_slot, find_slot-eq-some, find_slot-eq-none, find_slot_unique, fun_ext,
}
use scdk.Status.{ok, err, noent, Result-cases}
use scdk.Object.{obj_endpoint}
use scdk.Cap
use scdk.Cap.{CapEntry, right_bind, has_rights}
use scdk.Kernel.{Kernel, ServiceSlot, max_services}
use scdk.Endpoint.{register, service}

abbrev named : (ℕ → ServiceSlot) → ℕ → ℕ → Bool
named t id i = (t i).service_id == id

abbrev with_service : Kernel → ℕ → ℕ → ℕ → Kernel
with_service k n id endpoint = record k {
  services = update k.services n (record { service_id = id; endpoint = endpoint });
}

-- A successful registration fills the first free slot, after a check of the token.
record Registered (k : Kernel) (id endpoint : ℕ) (k' : Kernel) : Type 0 where
  entry : CapEntry
  allowed : Cap.check k.space endpoint right_bind obj_endpoint ≡ ok entry
  nonzero : id ≢ 0
  unused : find_slot (named k.services id) max_services 0 ≡ none
  slot : ℕ
  in_table : slot < max_services
  free : (k.services slot).service_id ≡ 0
  after : k' ≡ with_service k slot id endpoint

register-Registered :
    (k : Kernel) (id endpoint : ℕ) {k' : Kernel}
    → register k id endpoint ≡ (ok tt, k')
    → Registered k id endpoint k'
unfolding register
register-Registered k id endpoint {k'} h =
    elim (Result-cases (Cap.check k.space endpoint right_bind obj_endpoint)) [
      | inr (e, bad) ↦ absurd (ground arith)
      | inl (entry, good) ↦ elim (Option-cases (find_slot (named k.services id) max_services 0)) [
        | inr (i, taken) ↦ absurd (ground arith)
        | inl unused ↦ elim (Option-cases (find_slot (named k.services 0) max_services 0)) [
          | inl full ↦ absurd (ground arith)
          | inr (n, found) ↦
              let r = find_slot-eq-some (named k.services 0) max_services 0 found in
              record {
                entry = entry;
                allowed = good;
                nonzero = ground arith;
                unused = unused;
                slot = n;
                in_table = omega arith;
                free = ground arith;
                after = ground arith;
              }
        ]
      ]
    ]

service-with_self :
    (k : Kernel) (n id endpoint : ℕ)
    → id ≢ 0
    → n < max_services
    → find_slot (named k.services id) max_services 0 ≡ none
    → service (with_service k n id endpoint) id true ≡ ok endpoint
unfolding service
service-with_self k n id endpoint h lt unused =
    let found =
      find_slot_unique (named (with_service k n id endpoint).services id) max_services 0 n
        (ground arith) (omega arith) (omega arith)
        (λ j lo hi.
          let was =
            find_slot-eq-none (named k.services id) max_services 0 unused j lo (omega arith) in
          ground arith) in
    ground arith

service-with_other :
    (k : Kernel) (n id endpoint j : ℕ)
    → j ≢ id
    → (k.services n).service_id ≡ 0
    → service (with_service k n id endpoint) j true ≡ service k j true
unfolding service
service-with_other k n id endpoint j ne free = elim (Bool-cases (j == 0)) [
  | inl none_id ↦ ground arith
  | inr some_id ↦
      let t' = (with_service k n id endpoint).services in
      let same : (i : ℕ) → named t' j i ≡ named k.services j i = λ i. ground arith in
      let scan : find_slot (named t' j) max_services 0
          ≡ find_slot (named k.services j) max_services 0 =
        ap (λ a. find_slot a max_services 0) (fun_ext same) in
      elim (Option-cases (find_slot (named k.services j) max_services 0)) [
        | inl missing ↦ ground arith
        | inr (i, found) ↦
            let hit = (find_slot-eq-some (named k.services j) max_services 0 found).0 in
            ground arith
      ]
]

-- After a registration the id leads to the endpoint given, and every other id leads where it did.
service-register :
    (k : Kernel) (id endpoint j : ℕ) {k' : Kernel}
    → register k id endpoint ≡ (ok tt, k')
    → service k' j true ≡ (if j == id then ok endpoint else service k j true)
service-register k id endpoint j {k'} h =
    let r = register-Registered k id endpoint h in
    ground (
      arith,
      service-with_self k r.slot id endpoint r.nonzero r.in_table r.unused,
      service-with_other k r.slot id endpoint j,
    )

-- Who registers a service holds BIND on an endpoint, and nothing registered is replaced.
register-eq-ok :
    (k : Kernel) (id endpoint : ℕ) {k' : Kernel}
    → register k id endpoint ≡ (ok tt, k')
    → ((entry : CapEntry) × (Cap.check k.space endpoint right_bind obj_endpoint ≡ ok entry))
      × (service k id true ≡ err noent)
unfolding service
register-eq-ok k id endpoint h =
    let r = register-Registered k id endpoint h in
    ((r.entry, r.allowed), let unused = r.unused in let pos = r.nonzero in ground arith)
