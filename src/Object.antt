-- ===== src/Object.antt =====
-- src/core/object.c and src/include/scdk/object.h: the static object table. An object is named by an
-- id that holds its slot's index and the generation the slot had; objects are never destroyed.
pub mod Words
pub mod Laws
use scdk.Base.{
  ℕ, ◌+◌, ◌%◌, ◌^◌, Bool, true, false, not, ◌||◌, Option, none, some, ltb, leb, ◌==◌, if◌then◌else◌,
  update, find_slot,
}
use scdk.Status.{Result, ok, err, inval, nomem, noent, guard, ◌>>=◌, ◌>>◌}
use Words.{make_id, id_index, id_generation, next_generation}

abbrev pub max_objects : ℕ
max_objects = 4096

abbrev pub max_cores : ℕ
max_cores = 1

abbrev pub boot_core : ℕ
boot_core = 0

-- `enum scdk_object_type`. The field that holds one is a `uint32_t`.
abbrev pub obj_none : ℕ
obj_none = 0

abbrev pub obj_task : ℕ
obj_task = 3

abbrev pub obj_thread : ℕ
obj_thread = 4

abbrev pub obj_endpoint : ℕ
obj_endpoint = 5

abbrev pub obj_ring : ℕ
obj_ring = 6

abbrev pub obj_grant : ℕ
obj_grant = 7

abbrev pub obj_file : ℕ
obj_file = 9

-- The static tables that a `payload` points into.
pub data StaticTable : Type 0 where
  endpoint_table ring_table grant_table user_grants task_table thread_table open_files : StaticTable

-- `void *payload`: null, an element of a static table, or any other address.
pub data Pointer : Type 0 where
  null : Pointer
  element : StaticTable → ℕ → Pointer
  address : ℕ → Pointer

pub record Object : Type 0 where
  pub id : ℕ
  pub type : ℕ
  pub generation : ℕ
  pub owner_core : ℕ
  pub flags : ℕ
  pub payload : Pointer

pub record ObjectTable : Type 0 where
  pub slots : ℕ → Object
  pub generations : ℕ → ℕ

abbrev pub empty_object : Object
empty_object = record {
  id = 0;
  type = 0;
  generation = 0;
  owner_core = 0;
  flags = 0;
  payload = null;
}

-- The zeroed static storage.
abbrev pub empty_table : ObjectTable
empty_table = record { slots = λ i. empty_object; generations = λ i. 0 }

abbrev pub is_free : ObjectTable → ℕ → Bool
is_free t i = (t.slots i).type == obj_none

-- The body of the loop at a free slot.
pub fill : ObjectTable → ℕ → ℕ → ℕ → ℕ → Pointer → Result ℕ × ObjectTable
fill t i type owner_core flags payload =
    let generation = next_generation (t.generations i) in
    let id = make_id i generation in
    (
      ok id,
      record {
        slots = update t.slots i (record {
          id = id;
          type = type;
          generation = generation;
          owner_core = owner_core;
          flags = flags;
          payload = payload;
        });
        generations = update t.generations i generation;
      },
    )

-- `scdk_object_create`; `out` says that `out_id` is not null.
unfoldable pub create : ObjectTable → ℕ → ℕ → ℕ → Pointer → Bool → Result ℕ × ObjectTable
unfolding fill
create t type owner_core flags payload out =
    if not out || type == obj_none || leb max_cores owner_core
    then (err inval, t)
    else elim (find_slot (is_free t) max_objects 0) [
      | none ↦ (err nomem, t)
      | some i ↦ fill t i type owner_core flags payload
    ]

-- The last test of `scdk_object_lookup`, on the slot that the id names.
pub match_slot : Object → ℕ → ℕ → Result Object
match_slot object id generation =
    if object.type == obj_none || not (object.generation == generation) || not (object.id == id)
    then err noent
    else ok object

-- `scdk_object_lookup`; the result is the slot that `*out_object` points to.
unfoldable pub lookup : ObjectTable → ℕ → Bool → Result Object
unfolding match_slot
lookup t id out =
    if not out || id == 0
    then err inval
    else if leb max_objects (id_index id) || id_generation id == 0
    then err noent
    else match_slot (t.slots (id_index id)) id (id_generation id)
