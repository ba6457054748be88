-- ===== src/Cap/Laws.antt =====
-- The capability table's invariant, what a successful check says, and the new token's powers.
use scdk.Base.{
  ℕ, ◌^◌, ◌<◌, ◌≡◌, ◌≢◌, inl, inr, Bool, true, false, not, ◌||◌, arith, ◌==◌, find_slot,
  find_slot-eq-some, Option-cases,
}
use scdk.Status.{ok, Result-cases}
use scdk.Object
use scdk.Object.{Object, Pointer, obj_none}
use scdk.Object.Laws
use scdk.Object.Words.{
  make_id, id_index, id_generation, make_id-ne-zero, id_index-make_id, id_generation-make_id,
}
use scdk.Cap.{
  CapEntry, CapSpace, empty_space, is_live, has_rights, is_current, max_caps, validate, lookup,
  check, fill, create,
}

-- What an entry in use holds: the description of an object that is there.
pub record Live (s : CapSpace) (e : CapEntry) : Type 0 where
  pub object : Object
  pub found : Object.lookup s.objects e.object_id true ≡ ok object
  pub current : is_current object e ≡ true

pub record IsValid (s : CapSpace) : Type 0 where
  pub objects : Laws.IsValid s.objects
  pub small : (i : ℕ) → s.generations i < 2 ^ 32
  pub started : (i : ℕ) → is_live (s.entries i) ≡ true → 0 < s.generations i
  pub live : (i : ℕ) → is_live (s.entries i) ≡ true → Live s (s.entries i)

pub empty_space-IsValid : IsValid empty_space
empty_space-IsValid = record {
  objects = Laws.empty_table-IsValid;
  small = λ i. omega arith;
  started = λ i h. absurd (cc);
  live = λ i h. absurd (cc);
}

-- What a successful lookup says of the entry.
pub record Held (s : CapSpace) (cap : ℕ) (e : CapEntry) : Type 0 where
  pub in_table : id_index cap < max_caps
  pub entry : e ≡ s.entries (id_index cap)
  pub live : is_live e ≡ true
  pub generation : s.generations (id_index cap) ≡ id_generation cap
  pub object : Object
  pub found : Object.lookup s.objects e.object_id true ≡ ok object
  pub current : is_current object e ≡ true

pub validate-eq-ok :
    (s : CapSpace) (cap : ℕ) {e : CapEntry}
    → validate s cap ≡ ok e
    → (id_index cap < max_caps)
      × (e ≡ s.entries (id_index cap))
      × (is_live e ≡ true)
      × (s.generations (id_index cap) ≡ id_generation cap)
unfolding validate
validate-eq-ok s cap h = (ground arith, ground arith, ground arith, ground arith)

pub lookup-Held : (s : CapSpace) (cap : ℕ) {e : CapEntry} → lookup s cap ≡ ok e → Held s cap e
unfolding lookup
lookup-Held s cap {e} h = elim (Result-cases (validate s cap)) [
  | inr (x, bad) ↦ absurd (ground arith)
  | inl (a, good) ↦ elim (Result-cases (Object.lookup s.objects a.object_id true)) [
    | inr (x, bad) ↦ absurd (ground arith)
    | inl (o, found) ↦
        let same : a ≡ e = ground arith in
        let r = validate-eq-ok s cap good in
        record {
          in_table = r.0;
          entry = ground arith;
          live = ground arith;
          generation = r.3;
          object = o;
          found = ground arith;
          current = ground arith;
        }
  ]
]

-- A successful check: the token is live, its object is there with the type expected, and its rights
-- hold all that are required.
pub check-eq-ok :
    (s : CapSpace) (cap required expected : ℕ) {e : CapEntry}
    → check s cap required expected ≡ ok e
    → Held s cap e
      × (has_rights e.rights required ≡ true)
      × ((expected == obj_none || e.object_type == expected) ≡ true)
      × (required ≢ 0)
unfolding check
check-eq-ok s cap required expected {e} h = elim (Result-cases (lookup s cap)) [
  | inr (x, bad) ↦ absurd (ground arith)
  | inl (a, good) ↦
      let same : a ≡ e = ground arith in
      (lookup-Held s cap (ground arith), ground arith, ground arith, ground arith)
]

pub validate-make_id :
    (s : CapSpace) (i : ℕ)
    → i < max_caps
    → s.generations i < 2 ^ 32
    → 0 < s.generations i
    → is_live (s.entries i) ≡ true
    → validate s (make_id i (s.generations i)) ≡ ok (s.entries i)
unfolding validate
validate-make_id s i lt small pos live = ground (
  arith,
  id_index-make_id i (s.generations i),
  id_generation-make_id i (s.generations i),
  make_id-ne-zero i (s.generations i),
)

-- A successful creation fills an entry that was free, with the object's description.
pub create-eq-ok :
    (s : CapSpace) (id rights : ℕ) (out : Bool) {cap : ℕ} {s' : CapSpace}
    → create s id rights out ≡ (ok cap, s')
    → (i : ℕ) × (o : Object) × (i < max_caps)
      × (is_live (s.entries i) ≡ false)
      × (Object.lookup s.objects id true ≡ ok o)
      × (rights ≢ 0)
      × (fill s i o rights ≡ (ok cap, s'))
unfolding create
create-eq-ok s id rights out {cap} {s'} h = elim (Result-cases (Object.lookup s.objects id true)) [
  | inr (x, bad) ↦ absurd (ground arith)
  | inl (o, found) ↦ elim (Option-cases (find_slot (λ i. not (is_live (s.entries i))) max_caps 0)) [
    | inl e ↦ absurd (ground arith)
    | inr (i, e) ↦
        let r = find_slot-eq-some (λ i. not (is_live (s.entries i))) max_caps 0 e in
        (i, o, omega arith, ground arith, found, ground arith, ground arith)
  ]
]

-- Every check of a token that succeeds gives the entry that its lookup gives.
pub check-lookup :
    (s : CapSpace) (cap required expected : ℕ) {e : CapEntry}
    → check s cap required expected ≡ ok e
    → lookup s cap ≡ ok e
unfolding check
check-lookup s cap required expected h = ground arith
