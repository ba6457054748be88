-- ===== src/UserGrant.antt =====
-- src/core/user_grant.c and src/include/scdk/user_grant.h: grants over user memory, bound to the task
-- that gives them and the endpoint that may use them.
pub mod Access
pub mod Create
pub mod Backing
pub mod Powers
pub mod Confusion
use scdk.Base.{
  ℕ, zero, suc, ◌+◌, ◌-◌, ◌%◌, ◌/◌, ◌*◌, ◌^◌, bit_and, bit_or, Bool, true, false, not, ◌&&◌, ◌||◌,
  Option, none, some, ltb, ◌==◌, if◌then◌else◌, update, find_slot, List,
}
use scdk.Status.{
  Result, Status, ok, err, inval, nomem, noent, perm, bounds, guard, checked, ◌>>=◌, ◌>>◌,
}
use scdk.Object
use scdk.Object.{
  Pointer, null, element, address, StaticTable, grant_table, user_grants, obj_grant, obj_task,
  obj_endpoint, boot_core,
}
use scdk.Cap
use scdk.Cap.{CapSpace, right_read, right_write, right_map, right_send, right_revoke, has_rights}
use scdk.Kernel.{Kernel, Grant, GrantSlot, UserGrantSlot, max_user_grants, empty_user_grant}
use scdk.Grant.{rights_mask, beyond_mask}
use scdk.UserSpace.{UserSpace, validate_range, copy_from}

-- A kernel grant's slot read as a user grant's; see `read_as_grant` in Grant.antt. The flag is the
-- lowest byte of the reference count.
abbrev pub read_as_user_grant : GrantSlot → UserGrantSlot
read_as_user_grant g = record {
  object_id = g.object_id;
  source_task = g.grant.frame_cap;
  target_endpoint = g.grant.base;
  user_base = g.grant.offset;
  length = g.grant.length;
  rights = g.grant.rights;
  lifetime = g.grant.lifetime;
  revoked = not (g.grant.refcount % 256 == 0);
}

-- `struct scdk_user_grant_slot *slot = object->payload` of a grant object.
abbrev pub user_grant_at : Kernel → Pointer → Result UserGrantSlot
user_grant_at k (element user_grants i) = ok (k.user_grants i)
user_grant_at k (element grant_table i) = ok (read_as_user_grant (k.grants i))
user_grant_at k _ = err noent

abbrev pub with_slot : Kernel → ℕ → UserGrantSlot → Kernel
with_slot k i slot = record k { user_grants = update k.user_grants i slot }

-- `slot->revoked = true`
abbrev pub mark_revoked : Kernel → Pointer → Kernel
mark_revoked k (element user_grants i) = with_slot k i (record (k.user_grants i) { revoked = true })
mark_revoked k (element grant_table i) =
    let slot = k.grants i in
    let count = slot.grant.refcount / 256 * 256 + 1 in
    record k {
      grants = update k.grants i (record slot { grant = record (slot.grant) { refcount = count } });
    }
mark_revoked k _ = k

-- The checks of the tokens that a grant is bound to.
unfoldable pub check_binding : Kernel → UserGrantSlot → Bool → Status
check_binding k slot false = ok tt
check_binding k slot true = do
  task ← Cap.check k.space slot.source_task right_read obj_task
  endpoint ← Cap.check k.space slot.target_endpoint right_send obj_endpoint
  ok tt

-- `user_grant_lookup`: the payload pointer and the slot it points to.
unfoldable pub lookup : Kernel → ℕ → ℕ → Bool → Result (Pointer × UserGrantSlot)
lookup k cap required require_live_binding = do
  entry ← Cap.check k.space cap required obj_grant
  object ← Object.lookup k.space.objects entry.object_id true
  slot ← user_grant_at k object.payload
  guard (slot.object_id == entry.object_id) noent
  guard (not slot.revoked) perm
  check_binding k slot require_live_binding
  ok (object.payload, slot)

-- `check_grant_range` on a slot that is not null
unfoldable pub check_range : UserGrantSlot → ℕ → ℕ → ℕ → Status
check_range slot offset length required =
    if length == 0 || required == 0 || beyond_mask required
    then err inval
    else if not (has_rights slot.rights required)
    then err perm
    else if ltb slot.length offset || ltb (slot.length - offset) length
    then err bounds
    else ok tt

-- `checked_user_range`; no 64-bit length is above the bound of the second test.
unfoldable pub checked_user_range : UserSpace → ℕ → ℕ → Bool → Status
checked_user_range u user_base length writable =
    if length == 0 || ltb (2 ^ 64 - 1) length
    then err inval
    else validate_range u user_base length writable

-- The tests of `scdk_user_grant_create` before its loop.
unfoldable pub check_request : UserSpace → Kernel → ℕ → ℕ → ℕ → ℕ → ℕ → Bool → Status
check_request u k source_task user_base length rights target_endpoint out = do
  guard
      (not (
        source_task == 0
        || user_base == 0
        || length == 0
        || rights == 0
        || beyond_mask rights
        || target_endpoint == 0
        || not out))
      inval
  task ← Cap.check k.space source_task right_read obj_task
  endpoint ← Cap.check k.space target_endpoint right_send obj_endpoint
  checked_user_range u user_base length (not (bit_and rights right_write == 0))

-- A slot that the loop passes over.
abbrev pub in_use : UserGrantSlot → Bool
in_use slot = not (slot.object_id == 0) && not slot.revoked

-- The object of the slot: the one that a revoked grant left there, or a new one.
pub slot_object : Kernel → ℕ → Result ℕ × CapSpace
slot_object k i =
    if (k.user_grants i).object_id == 0
    then Cap.create_object k.space obj_grant boot_core 0 (element user_grants i)
    else (ok (k.user_grants i).object_id, k.space)

-- What the slot is left with if the token cannot be made: nothing, or the revoked grant's object.
abbrev pub cleared_slot : Kernel → ℕ → ℕ → UserGrantSlot
cleared_slot k i object_id =
    if (k.user_grants i).object_id == 0
    then empty_user_grant
    else record empty_user_grant { object_id = object_id; revoked = true }

-- The end of the loop's body: what the slot holds once the token is made, or if it is not.
pub fill_slot : Kernel → ℕ → UserGrantSlot → ℕ → Result ℕ × CapSpace → Result ℕ × Kernel
fill_slot k i slot id (ok cap, s) = (
  ok cap,
  record k { space = s; user_grants = update k.user_grants i (record slot { object_id = id }) },
)
fill_slot k i slot id (err e, s) =
    (err e, record k { space = s; user_grants = update k.user_grants i (cleared_slot k i id) })

pub finish : Kernel → ℕ → UserGrantSlot → Result ℕ × CapSpace → Result ℕ × Kernel
unfolding fill_slot
finish k i slot (err e, s) = (err e, record k { space = s })
finish k i slot (ok id, s) =
    fill_slot k i slot id (Cap.create s id (bit_or slot.rights right_revoke) true)

-- The slot's fields but for its object id.
abbrev pub new_slot : ℕ → ℕ → ℕ → ℕ → ℕ → UserGrantSlot
new_slot source_task user_base length rights target_endpoint = record {
  object_id = 0;
  source_task = source_task;
  target_endpoint = target_endpoint;
  user_base = user_base;
  length = length;
  rights = rights;
  lifetime = 1;
  revoked = false;
}

-- `scdk_user_grant_create`; `out` says that `out_grant` is not null.
unfoldable pub create : UserSpace → Kernel → ℕ → ℕ → ℕ → ℕ → ℕ → Bool → Result ℕ × Kernel
unfolding finish slot_object check_request checked_user_range
create u k source_task user_base length rights target_endpoint out =
    checked (check_request u k source_task user_base length rights target_endpoint out) k λ _.
      elim (find_slot (λ i. not (in_use (k.user_grants i))) max_user_grants 0) [
        | none ↦ (err nomem, k)
        | some i ↦
            finish k i (new_slot source_task user_base length rights target_endpoint)
              (slot_object k i)
      ]

-- `scdk_user_grant_revoke`
unfoldable pub revoke : Kernel → ℕ → Status × Kernel
revoke k cap = checked (lookup k cap right_revoke false) k λ found.
    let k' = mark_revoked k found.0 in
    let (status, s) = Cap.revoke k'.space cap in (status, record k' { space = s })

-- `scdk_validate_grant_access`
unfoldable pub validate_access : Kernel → ℕ → ℕ → ℕ → ℕ → Status
validate_access k cap offset length required = do
  found ← lookup k cap required true
  check_range (found.1) offset length required

-- `scdk_user_grant_copy_from`; `kernel_dst` says that the destination is not null.
unfoldable pub copy_from_grant : UserSpace → Kernel → ℕ → ℕ → ℕ → Bool → ℕ → Result (List ℕ)
copy_from_grant u k target_endpoint cap offset kernel_dst length = do
  guard (not (target_endpoint == 0) && kernel_dst) inval
  found ← lookup k cap right_read true
  guard (found.1.target_endpoint == target_endpoint) perm
  check_range (found.1) offset length right_read
  copy_from u ((found.1.user_base + offset) % 2 ^ 64) kernel_dst length
