-- ===== src/Object/Laws.antt =====
-- What object.c promises of ids: a new one names the new object alone, and old ones keep theirs.
use scdk.Base.{
  ℕ, ◌^◌, ◌<◌, ◌≡◌, ◌≢◌, inl, inr, Bool, true, not, ◌||◌, arith, leb, ◌==◌, find_slot,
  find_slot-eq-some, find_slot-eq-none, Option-cases, Bool-cases,
}
use scdk.Status.{ok, err, nomem, noent}
use scdk.Object.{
  Object, ObjectTable, Pointer, empty_table, max_objects, max_cores, obj_none, is_free, fill,
  create, lookup,
}
use scdk.Object.Words.{
  make_id, id_index, id_generation, next_generation, make_id-ne-zero, id_index-make_id,
  id_generation-make_id, next_generation_bounds,
}

-- What a slot in use holds.
pub record Named (t : ObjectTable) (i : ℕ) : Type 0 where
  pub id : (t.slots i).id ≡ make_id i (t.slots i).generation
  pub generation : (t.slots i).generation ≡ t.generations i
  pub started : 0 < t.generations i

pub record IsValid (t : ObjectTable) : Type 0 where
  pub small : (i : ℕ) → t.generations i < 2 ^ 32
  pub named : (i : ℕ) → (t.slots i).type ≢ obj_none → Named t i

pub empty_table-IsValid : IsValid empty_table
empty_table-IsValid = record { small = λ i. omega arith; named = λ i h. absurd (omega arith) }

-- A successful creation fills a free slot within the table.
pub create-eq-ok :
    (t : ObjectTable) (type core flags : ℕ) (p : Pointer) (out : Bool) {id : ℕ} {t' : ObjectTable}
    → create t type core flags p out ≡ (ok id, t')
    → (i : ℕ) × (i < max_objects)
      × ((t.slots i).type ≡ obj_none)
      × (type ≢ obj_none)
      × (fill t i type core flags p ≡ (ok id, t'))
unfolding create
create-eq-ok t type core flags p out {id} {t'} h =
    elim (Option-cases (find_slot (is_free t) max_objects 0)) [
      | inl e ↦ ground arith
      | inr (i, e) ↦
          let r = find_slot-eq-some (is_free t) max_objects 0 e in
          (i, omega arith, ground arith, ground arith, ground arith)
    ]

-- The new id was not the name of an object before.
create-fresh :
    (t : ObjectTable) (type core flags : ℕ) (p : Pointer) (out : Bool) {id : ℕ} {t' : ObjectTable}
    → IsValid t
    → create t type core flags p out ≡ (ok id, t')
    → lookup t id true ≡ err noent
unfolding lookup fill
create-fresh t type core flags p out v h =
    let (i, lt, free, _, e) = create-eq-ok t type core flags p out h in
    ground (
      arith,
      next_generation_bounds (t.generations i),
      id_index-make_id i (next_generation (t.generations i)),
      id_generation-make_id i (next_generation (t.generations i)),
      make_id-ne-zero i (next_generation (t.generations i)),
    )

-- The new id names an object with the fields asked for.
pub lookup-create :
    (t : ObjectTable) (type core flags : ℕ) (p : Pointer) (out : Bool) {id : ℕ} {t' : ObjectTable}
    → create t type core flags p out ≡ (ok id, t')
    → lookup t' id true
      ≡ ok (record {
        id = id;
        type = type;
        generation = id_generation id;
        owner_core = core;
        flags = flags;
        payload = p;
      })
unfolding lookup fill
lookup-create t type core flags p out h =
    let (i, lt, free, _, e) = create-eq-ok t type core flags p out h in
    ground (
      arith,
      next_generation_bounds (t.generations i),
      id_index-make_id i (next_generation (t.generations i)),
      id_generation-make_id i (next_generation (t.generations i)),
      make_id-ne-zero i (next_generation (t.generations i)),
    )

-- An id that names an object names the same object after any creation.
pub lookup-create_old :
    (t : ObjectTable) (type core flags : ℕ) (p : Pointer) (out : Bool) (id : ℕ) {o : Object}
    → lookup t id true ≡ ok o
    → lookup (create t type core flags p out).1 id true ≡ ok o
unfolding lookup create
lookup-create_old t type core flags p out id h =
    elim (Option-cases (find_slot (is_free t) max_objects 0)) [
      | inl e ↦ ground arith
      | inr (i, e) ↦ ground (arith, find_slot-eq-some (is_free t) max_objects 0 {i = i})
    ]

-- What a successful lookup says of its result.
pub lookup-eq-ok :
    (t : ObjectTable) (id : ℕ) (out : Bool) {o : Object}
    → lookup t id out ≡ ok o
    → (id_index id < max_objects)
      × (o ≡ t.slots (id_index id))
      × (o.id ≡ id)
      × (o.type ≢ obj_none)
      × (o.generation ≡ id_generation id)
unfolding lookup
lookup-eq-ok t id out h = (ground arith, ground arith, ground arith, ground arith, ground arith)

pub lookup-ne-zero :
    (t : ObjectTable) (id : ℕ) (out : Bool) {o : Object} → lookup t id out ≡ ok o → o.id ≢ 0
unfolding lookup
lookup-ne-zero t id out h = ground arith

-- Creation leaves the table as it was, or fills a free slot of it.
pub create-cases {ℓ} :
    (P : ObjectTable → Type ℓ) (t : ObjectTable) (type core flags : ℕ) (p : Pointer) (out : Bool)
    → P t
    → ((i : ℕ)
        → i < max_objects
        → (t.slots i).type ≡ obj_none
        → type ≢ obj_none
        → P (fill t i type core flags p).1)
    → P (create t type core flags p out).1
unfolding create
create-cases P t type core flags p out same filled =
    elim (Bool-cases (not out || type == obj_none || leb max_cores core)) [
      | inl bad ↦ rw bad same
      | inr good ↦ elim (Option-cases (find_slot (is_free t) max_objects 0)) [
        | inl full ↦ rw (good, full) same
        | inr (i, e) ↦
            let r = find_slot-eq-some (is_free t) max_objects 0 e in
            rw (good, e) (filled i (omega arith) (ground arith) (ground arith))
      ]
    ]

fill-Named :
    (t : ObjectTable) (type core flags i j : ℕ) (p : Pointer)
    → ((t.slots j).type ≢ obj_none → Named t j)
    → ((fill t i type core flags p).1.slots j).type ≢ obj_none
    → Named (fill t i type core flags p).1 j
unfolding fill
fill-Named t type core flags i j p v h = elim (Bool-cases (i == j)) [
  | inl same ↦ ground (arith, next_generation_bounds (t.generations i))
  | inr other ↦ ground arith
]

-- Creation keeps the table well formed.
pub create-IsValid :
    (t : ObjectTable) (type core flags : ℕ) (p : Pointer) (out : Bool)
    → IsValid t
    → IsValid (create t type core flags p out).1
unfolding fill
create-IsValid t type core flags p out v =
    create-cases IsValid t type core flags p out v λ i lt free used. record {
      small = λ j. ground (arith, next_generation_bounds (t.generations i), v.small j);
      named = λ j h. fill-Named t type core flags i j p (v.named j) h;
    }

-- Creation fails for want of room exactly when every slot is in use.
pub create-eq-nomem :
    (t : ObjectTable) (type core flags : ℕ) (p : Pointer)
    → type ≢ obj_none
    → core < max_cores
    → (create t type core flags p true).0 ≡ err nomem
    → (i : ℕ) → i < max_objects
    → (t.slots i).type ≢ obj_none
unfolding create
create-eq-nomem t type core flags p h c e i lt =
    elim (Option-cases (find_slot (is_free t) max_objects 0)) [
      | inl full ↦
          let used =
            find_slot-eq-none (is_free t) max_objects 0 full i (omega arith) (omega arith) in
          ground arith
      | inr (j, found) ↦ absurd (ground arith)
    ]
