-- ===== src/Cap/Preserve.antt =====
-- Every operation of object.c and capability.c keeps the capability table's invariant.
use scdk.Base.{
  ℕ, ◌<◌, ◌≡◌, refl, inl, inr, Bool, true, false, not, ◌||◌, arith, ◌==◌, find_slot,
  find_slot-eq-some, Option-cases, Bool-cases,
}
use scdk.Status.{ok, Result-cases}
use scdk.Object
use scdk.Object.{Object, ObjectTable, Pointer, obj_none}
use scdk.Object.Laws
use scdk.Object.Words.{next_generation_bounds, id_index}
use scdk.Cap.{
  CapEntry, CapSpace, is_live, max_caps, lookup, create, fill, retire, revoke, create_object,
}
use scdk.Cap.Laws.{IsValid, Live}

-- Creation leaves the space as it was, or fills an entry that was free.
pub create-cases {ℓ} :
    (P : CapSpace → Type ℓ) (s : CapSpace) (id rights : ℕ) (out : Bool)
    → P s
    → ((i : ℕ) (o : Object)
        → i < max_caps
        → is_live (s.entries i) ≡ false
        → Object.lookup s.objects id true ≡ ok o
        → P (fill s i o rights).1)
    → P (create s id rights out).1
unfolding create
create-cases P s id rights out same filled = elim (Bool-cases (not out || rights == 0)) [
  | inl bad ↦ rw bad same
  | inr good ↦ elim (Result-cases (Object.lookup s.objects id true)) [
    | inr (x, bad) ↦ rw (good, bad) same
    | inl (o, found) ↦
        elim (Option-cases (find_slot (λ i. not (is_live (s.entries i))) max_caps 0)) [
          | inl full ↦ rw (good, found, full) same
          | inr (i, e) ↦
              let r = find_slot-eq-some (λ i. not (is_live (s.entries i))) max_caps 0 e in
              rw (good, found, e) (filled i o (omega arith) (ground arith) found)
        ]
  ]
]

pub revoke-cases {ℓ} :
    (P : CapSpace → Type ℓ) (s : CapSpace) (cap : ℕ)
    → P s
    → ((e : CapEntry) → lookup s cap ≡ ok e → P (retire s (id_index cap)))
    → P (revoke s cap).1
unfolding revoke
revoke-cases P s cap same retired = elim (Result-cases (lookup s cap)) [
  | inl (e, good) ↦ rw good (retired e good)
  | inr (x, bad) ↦ rw bad same
]

fill-Live :
    (s : CapSpace) (i j : ℕ) (o : Object) (id rights : ℕ)
    → Object.lookup s.objects id true ≡ ok o
    → ((is_live (s.entries j) ≡ true) → Live s (s.entries j))
    → is_live ((fill s i o rights).1.entries j) ≡ true
    → Live (fill s i o rights).1 ((fill s i o rights).1.entries j)
unfolding fill
fill-Live s i j o id rights found v h = elim (Bool-cases (i == j)) [
  | inl same ↦
      let named = Laws.lookup-eq-ok s.objects id true found in
      record { object = o; found = ground arith; current = ground arith }
  | inr other ↦
      let old = v (ground arith) in
      record { object = old.object; found = ground arith; current = ground arith }
]

-- Creating a capability keeps the invariant.
pub create-IsValid :
    (s : CapSpace) (id rights : ℕ) (out : Bool) → IsValid s → IsValid (create s id rights out).1
unfolding fill
create-IsValid s id rights out v = create-cases IsValid s id rights out v λ i o lt free found.
    record {
      objects = v.objects;
      small = λ j. ground (arith, next_generation_bounds (s.generations i), v.small j);
      started = λ j h. ground (arith, next_generation_bounds (s.generations i), v.started j);
      live = λ j h. fill-Live s i j o id rights found (v.live j) h;
    }

retire-Live :
    (s : CapSpace) (i j : ℕ)
    → ((is_live (s.entries j) ≡ true) → Live s (s.entries j))
    → is_live ((retire s i).entries j) ≡ true
    → Live (retire s i) ((retire s i).entries j)
unfolding retire
retire-Live s i j v h = elim (Bool-cases (i == j)) [
  | inl same ↦ absurd (ground arith)
  | inr other ↦
      let old = v (ground arith) in
      record { object = old.object; found = ground arith; current = ground arith }
]

-- Revoking one keeps it.
pub revoke-IsValid : (s : CapSpace) (cap : ℕ) → IsValid s → IsValid (revoke s cap).1
unfolding retire
revoke-IsValid s cap v = revoke-cases IsValid s cap v λ e held. record {
  objects = v.objects;
  small = λ j. ground (arith, next_generation_bounds (s.generations (id_index cap)), v.small j);
  started =
      λ j h. ground (arith, next_generation_bounds (s.generations (id_index cap)), v.started j);
  live = λ j h. retire-Live s (id_index cap) j (v.live j) h;
}

-- Creating an object keeps it: no live entry loses its object.
pub create_object-IsValid :
    (s : CapSpace) (type core flags : ℕ) (p : Pointer)
    → IsValid s
    → IsValid (create_object s type core flags p).1
unfolding create_object
create_object-IsValid s type core flags p v = record {
  objects = Laws.create-IsValid s.objects type core flags p true v.objects;
  small = v.small;
  started = v.started;
  live = λ i h.
      let old = v.live i h in
      record {
        object = old.object;
        found = Laws.lookup-create_old s.objects type core flags p true _ old.found;
        current = old.current;
      };
}

-- Revoking a token touches no object.
pub objects-revoke : (s : CapSpace) (cap : ℕ) → (revoke s cap).1.objects ≡ s.objects
unfolding retire
objects-revoke s cap = revoke-cases (λ t. t.objects ≡ s.objects) s cap refl (λ e held. refl)
