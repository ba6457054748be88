-- ===== src/Cap/Rights.antt =====
-- What a token lets its holder do: the rights it was created with, over its own object, and no more.
use scdk.Base.{
  ℕ, ◌<◌, ◌≡◌, ◌≢◌, sym, Bool, true, ◌||◌, ◌&&◌, arith, ◌==◌, if◌then◌else◌, bit_and_assoc, subst,
}
use scdk.Status.{ok, err, perm}
use scdk.Object
use scdk.Object.{Object, ObjectTable, Pointer, obj_none}
use scdk.Object.Laws
use scdk.Object.Words.{
  make_id, next_generation, next_generation_bounds, id_index-make_id, id_generation-make_id,
  make_id-ne-zero,
}
use scdk.Cap.{CapEntry, CapSpace, has_rights, max_caps, validate, lookup, check, create, fill}
use scdk.Cap.Laws.{create-eq-ok}

-- The description that the entry of a new token holds.
abbrev pub describe : Object → ℕ → CapEntry
describe o rights = record {
  object_id = o.id;
  generation = o.generation;
  object_type = o.type;
  revoked = 0;
  rights = rights;
}

-- The token that filling an entry yields leads to the entry.
validate-fill :
    (s : CapSpace) (i : ℕ) (o : Object) (rights : ℕ)
    → i < max_caps
    → o.id ≢ 0
    → validate (fill s i o rights).1 (make_id i (next_generation (s.generations i)))
      ≡ ok (describe o rights)
unfolding fill validate
validate-fill s i o rights lt named = ground (
  arith,
  next_generation_bounds (s.generations i),
  id_index-make_id i (next_generation (s.generations i)),
  id_generation-make_id i (next_generation (s.generations i)),
  make_id-ne-zero i (next_generation (s.generations i)),
)

lookup-fill :
    (s : CapSpace) (i : ℕ) (o : Object) (id rights : ℕ)
    → i < max_caps
    → Object.lookup s.objects id true ≡ ok o
    → lookup (fill s i o rights).1 (make_id i (next_generation (s.generations i)))
      ≡ ok (describe o rights)
unfolding lookup fill
lookup-fill s i o id rights lt found =
    let named = Laws.lookup-eq-ok s.objects id true found in
    let there : Object.lookup s.objects o.id true ≡ ok o =
      subst (λ x. Object.lookup s.objects x true ≡ ok o) (sym named.2) found in
    let filled = validate-fill s i o rights lt (Laws.lookup-ne-zero s.objects id true found) in
    ground arith

pub lookup-create :
    (s : CapSpace) (id rights : ℕ) (out : Bool) {cap : ℕ} {s' : CapSpace} (o : Object)
    → Object.lookup s.objects id true ≡ ok o
    → create s id rights out ≡ (ok cap, s')
    → lookup s' cap ≡ ok (describe o rights)
unfolding fill
lookup-create s id rights out {cap} {s'} o found h =
    let (i, a, lt, free, found', pos, e) = create-eq-ok s id rights out h in
    let same : a ≡ o = cc in let filled = lookup-fill s i o id rights lt found in ground arith

-- Of the checks that require some right, a new token passes exactly those that require no other
-- rights than its own, for its object's type or any.
pub check-create :
    (s : CapSpace) (id rights required expected : ℕ) (out : Bool) {cap : ℕ} {s' : CapSpace}
    (o : Object)
    → Object.lookup s.objects id true ≡ ok o
    → create s id rights out ≡ (ok cap, s')
    → required ≢ 0
    → check s' cap required expected ≡ (
        if (expected == obj_none || o.type == expected) && has_rights rights required
        then ok (describe o rights)
        else err perm)
unfolding check
check-create s id rights required expected out {cap} {s'} o found h some_right =
    let e = lookup-create s id rights out o found h in ground arith

-- A token that holds some rights holds every part of them.
pub check_weaken :
    (s : CapSpace) (cap required part expected : ℕ) {e : CapEntry}
    → part ≢ 0
    → has_rights required part ≡ true
    → check s cap required expected ≡ ok e
    → check s cap part expected ≡ ok e
unfolding check
check_weaken s cap required part expected {e} pos within h =
    ground (arith, bit_and_assoc e.rights required part)
