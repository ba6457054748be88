-- ===== src/Cap.antt =====
-- src/core/capability.c, src/include/scdk/capability.h and src/core/revoke.c: the static capability
-- table over the object table. A token holds the index of an entry and the generation it had.
pub mod Laws
pub mod Rights
pub mod Preserve
pub mod Stale
pub mod Growth
use scdk.Base.{
  ℕ, ◌^◌, bit_and, Bool, true, false, not, ◌&&◌, ◌||◌, Option, none, some, leb, ◌==◌, if◌then◌else◌,
  update, find_slot,
}
use scdk.Status.{Result, Status, ok, err, inval, nomem, noent, perm, guard, checked, ◌>>=◌, ◌>>◌}
use scdk.Object
use scdk.Object.{Object, ObjectTable, Pointer, obj_none, empty_table}
use scdk.Object.Words.{make_id, id_index, id_generation, next_generation}

abbrev pub max_caps : ℕ
max_caps = 4096

-- `enum scdk_rights`
abbrev pub right_read : ℕ
right_read = 2 ^ 0

abbrev pub right_write : ℕ
right_write = 2 ^ 1

abbrev pub right_exec : ℕ
right_exec = 2 ^ 2

abbrev pub right_map : ℕ
right_map = 2 ^ 3

abbrev pub right_send : ℕ
right_send = 2 ^ 4

abbrev pub right_recv : ℕ
right_recv = 2 ^ 5

abbrev pub right_bind : ℕ
right_bind = 2 ^ 6

abbrev pub right_revoke : ℕ
right_revoke = 2 ^ 7

pub record CapEntry : Type 0 where
  pub object_id : ℕ
  pub generation : ℕ
  pub object_type : ℕ
  pub revoked : ℕ
  pub rights : ℕ

-- The object table and the capability table: what every later part of the kernel rests on.
pub record CapSpace : Type 0 where
  pub objects : ObjectTable
  pub entries : ℕ → CapEntry
  pub generations : ℕ → ℕ

abbrev pub empty_entry : CapEntry
empty_entry = record { object_id = 0; generation = 0; object_type = 0; revoked = 0; rights = 0 }

abbrev pub empty_space : CapSpace
empty_space = record { objects = empty_table; entries = λ i. empty_entry; generations = λ i. 0 }

abbrev pub is_live : CapEntry → Bool
is_live e = not (e.object_id == 0) && e.revoked == 0

-- `(rights & required) == required`
abbrev pub has_rights : ℕ → ℕ → Bool
has_rights rights required = bit_and rights required == required

-- `validate_cap_slot`, past the test of the null pointer, which no caller passes.
unfoldable pub validate : CapSpace → ℕ → Result CapEntry
validate s cap =
    if cap == 0
    then err inval
    else if leb max_caps (id_index cap)
        || id_generation cap == 0
        || not (s.generations (id_index cap) == id_generation cap)
        || not (is_live (s.entries (id_index cap)))
    then err noent
    else ok (s.entries (id_index cap))

-- The entry still describes the object.
abbrev pub is_current : Object → CapEntry → Bool
is_current o e = o.generation == e.generation && o.type == e.object_type

-- `scdk_cap_lookup`
unfoldable pub lookup : CapSpace → ℕ → Result CapEntry
lookup s cap = do
  entry ← validate s cap
  object ← Object.lookup s.objects entry.object_id true
  guard (is_current object entry) noent
  ok entry

-- `scdk_cap_check`. `expected` is an object type, or `obj_none` for any.
unfoldable pub check : CapSpace → ℕ → ℕ → ℕ → Result CapEntry
check s cap required expected = do
  guard (not (required == 0)) inval
  entry ← lookup s cap
  guard (expected == obj_none || entry.object_type == expected) perm
  guard (has_rights entry.rights required) perm
  ok entry

-- The body of the loop of `scdk_cap_create` at a free entry.
pub fill : CapSpace → ℕ → Object → ℕ → Result ℕ × CapSpace
fill s i object rights =
    let generation = next_generation (s.generations i) in
    (
      ok (make_id i generation),
      record s {
        entries = update s.entries i (record {
          object_id = object.id;
          generation = object.generation;
          object_type = object.type;
          revoked = 0;
          rights = rights;
        });
        generations = update s.generations i generation;
      },
    )

-- `scdk_cap_create`; `out` says that `out_cap` is not null.
unfoldable pub create : CapSpace → ℕ → ℕ → Bool → Result ℕ × CapSpace
unfolding fill
create s object_id rights out =
    if not out || rights == 0
    then (err inval, s)
    else checked (Object.lookup s.objects object_id true) s λ object.
      elim (find_slot (λ i. not (is_live (s.entries i))) max_caps 0) [
        | none ↦ (err nomem, s)
        | some i ↦ fill s i object rights
      ]

-- The writes of `scdk_cap_revoke`: the entry is marked, and its generation moves on.
pub retire : CapSpace → ℕ → CapSpace
retire s i = record s {
  entries = update s.entries i (record (s.entries i) { revoked = 1 });
  generations = update s.generations i (next_generation (s.generations i));
}

-- `scdk_cap_revoke`
unfoldable pub revoke : CapSpace → ℕ → Status × CapSpace
unfolding retire
revoke s cap = checked (lookup s cap) s λ _. (ok tt, retire s (id_index cap))

-- `scdk_cap_revoke_stub`
unfoldable pub revoke_stub : CapSpace → ℕ → Status × CapSpace
unfolding revoke
revoke_stub s cap = checked (lookup s cap) s λ _. revoke s cap

-- `scdk_revoke_capability`
unfoldable pub revoke_capability : CapSpace → ℕ → Status × CapSpace
unfolding revoke
revoke_capability s cap = revoke s cap

-- An object is created, and nothing else of the space changes.
unfoldable pub create_object : CapSpace → ℕ → ℕ → ℕ → Pointer → Result ℕ × CapSpace
create_object s type owner_core flags payload =
    let (r, objects) = Object.create s.objects type owner_core flags payload true in
    (r, record s { objects = objects })

-- The steps that the creators of endpoints, grants, rings and tasks share at a free slot: make the
-- object, fill the slot, mint the token, and clear the slot if that fails. The state `S` is built
-- from the space by `failed`, `filled` and `cleared`; the last two also get the object's id.
module _ {S : Type 0} (failed : CapSpace → S) (filled cleared : ℕ → CapSpace → S) where
  minted : ℕ → Result ℕ × CapSpace → Result ℕ × S
  minted id (ok cap, s) = (ok cap, filled id s)
  minted id (err e, s) = (err e, cleared id s)

  made : ℕ → Result ℕ × CapSpace → Result ℕ × S
  unfolding minted
  made rights (ok id, s) = minted id (create s id rights true)
  made rights (err e, s) = (err e, failed s)

  unfoldable pub new_object : CapSpace → ℕ → ℕ → Pointer → ℕ → Result ℕ × S
  unfolding made
  new_object s type owner_core payload rights =
      made rights (create_object s type owner_core 0 payload)
