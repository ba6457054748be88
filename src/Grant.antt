-- ===== src/Grant.antt =====
-- src/core/grant.c and src/include/scdk/grant.h: grants over kernel memory ranges.
pub mod Range
pub mod Create
use scdk.Base.{
  ℕ, ◌+◌, ◌-◌, ◌%◌, ◌^◌, bit_and, bit_or, Bool, true, false, not, ◌||◌, Option, none, some, ltb,
  ◌==◌, if◌then◌else◌, update, find_slot,
}
use scdk.Status.{Result, Status, ok, err, inval, nomem, noent, perm, bounds, guard, ◌>>=◌, ◌>>◌}
use scdk.Object
use scdk.Object.{
  Pointer, null, element, address, StaticTable, grant_table, user_grants, obj_grant, boot_core,
}
use scdk.Cap
use scdk.Cap.{CapSpace, right_read, right_write, right_map, has_rights, new_object}
use scdk.Kernel.{Kernel, Grant, GrantSlot, UserGrantSlot, max_grants}

-- SCDK_GRANT_RIGHTS_MASK, and `(rights & ~SCDK_GRANT_RIGHTS_MASK) != 0u` on 64 bits
abbrev pub rights_mask : ℕ
rights_mask = bit_or (bit_or right_read right_write) right_map

abbrev pub beyond_mask : ℕ → Bool
beyond_mask rights = not (bit_and rights (2 ^ 64 - 1 - rights_mask) == 0)

-- The two slot types as they lie in memory: `object_id` first in both, and then
-- source_task/frame_cap, target_endpoint/base, user_base/offset, length, rights, lifetime, and the
-- byte `revoked`, with zeroed padding, over the lowest byte of `refcount`.
abbrev pub read_as_grant : UserGrantSlot → GrantSlot
read_as_grant u = record {
  object_id = u.object_id;
  grant = record {
    frame_cap = u.source_task;
    base = u.target_endpoint;
    offset = u.user_base;
    length = u.length;
    rights = u.rights;
    lifetime = u.lifetime;
    refcount = if u.revoked then 1 else 0;
  };
}

-- `struct scdk_grant_slot *slot = object->payload` of a grant object. grant.c and user_grant.c both
-- make objects of this type, over their own tables, and nothing tells them apart here.
abbrev pub grant_at : Kernel → Pointer → Result GrantSlot
grant_at k (element grant_table i) = ok (k.grants i)
grant_at k (element user_grants i) = ok (read_as_grant (k.user_grants i))
grant_at k _ = err noent

-- `grant_lookup`
unfoldable pub lookup : Kernel → ℕ → ℕ → Result Grant
lookup k cap required = do
  entry ← Cap.check k.space cap required obj_grant
  object ← Object.lookup k.space.objects entry.object_id true
  slot ← grant_at k object.payload
  guard (slot.object_id == entry.object_id) noent
  ok slot.grant

-- `grant_check_range` on a grant that is not null
unfoldable pub check_range : Grant → ℕ → ℕ → ℕ → Status
check_range g required offset length =
    if required == 0 || beyond_mask required || length == 0
    then err inval
    else if not (has_rights g.rights required)
    then err perm
    else if ltb offset g.offset
    then err bounds
    else if ltb g.length (offset - g.offset) || ltb (g.length - (offset - g.offset)) length
    then err bounds
    else ok tt

-- The body of the loop of `scdk_grant_create` at a free slot. If the token cannot be made, only the
-- slot's object id is cleared.
pub occupy : Kernel → ℕ → ℕ → ℕ → ℕ → ℕ → Result ℕ × Kernel
unfolding new_object
occupy k i base length rights lifetime =
    let g : Grant = record {
      frame_cap = 0;
      base = base;
      offset = 0;
      length = length;
      rights = rights;
      lifetime = lifetime;
      refcount = 1;
    } in
    let set = λ (id : ℕ) (s : CapSpace). record k {
      space = s;
      grants = update k.grants i (record { object_id = id; grant = g });
    } in
    new_object (λ s. record k { space = s }) set (λ _. set 0) k.space obj_grant boot_core
      (element grant_table i) rights

-- `scdk_grant_create`; `base` is 0 for a null pointer, and `out` says that `out_grant` is not null.
unfoldable pub create : Kernel → ℕ → ℕ → ℕ → ℕ → Bool → Result ℕ × Kernel
unfolding occupy
create k base length rights lifetime out =
    if base == 0 || length == 0 || rights == 0 || beyond_mask rights || not out
    then (err inval, k)
    else elim (find_slot (λ i. (k.grants i).object_id == 0) max_grants 0) [
      | none ↦ (err nomem, k)
      | some i ↦ occupy k i base length rights lifetime
    ]

-- `scdk_grant_check`
unfoldable pub check : Kernel → ℕ → ℕ → ℕ → ℕ → Status
check k grant required offset length = do
  target ← lookup k grant required
  check_range target required offset length

-- `scdk_grant_resolve`; `out` says that `out_ptr` is not null.
unfoldable pub resolve : Kernel → ℕ → ℕ → ℕ → ℕ → Bool → Result ℕ
resolve k grant required offset length out = do
  guard out inval
  target ← lookup k grant required
  check_range target required offset length
  ok ((target.base + (offset - target.offset)) % 2 ^ 64)
