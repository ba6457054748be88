-- ===== src/Ring.antt =====
-- src/core/ring.c and src/include/scdk/ring.h: submission and completion rings over static storage.
-- Heads and tails are 32-bit counters that run on and wrap; an index is a counter modulo `entries`.
pub mod Window
pub mod Queue
pub mod Refine
pub mod Trace
pub mod Wrap
pub mod Access
use scdk.Base.{
  ℕ, ◌+◌, ◌-◌, ◌%◌, ◌^◌, bit_or, Bool, true, false, not, ◌||◌, Option, none, some, ltb, leb, ◌==◌,
  if◌then◌else◌, update, find_slot,
}
use scdk.Status.{Result, Status, ok, err, inval, nomem, noent, busy, guard, checked, ◌>>=◌, ◌>>◌}
use scdk.Object
use scdk.Object.{Pointer, null, element, address, StaticTable, ring_table, obj_ring, obj_endpoint}
use scdk.Cap
use scdk.Cap.{CapSpace, right_read, right_write, right_bind, right_send, new_object}
use scdk.Kernel.{
  Kernel, Ring, RingSlot, RingDesc, Completion, max_rings, ring_max_entries, empty_ring,
}

-- `tail - head` on `uint32_t`
abbrev pub queue_count : ℕ → ℕ → ℕ
queue_count head tail = (tail + 2 ^ 32 - head) % 2 ^ 32

-- `counter++` on `uint32_t`
abbrev pub advance : ℕ → ℕ
advance counter = (counter + 1) % 2 ^ 32

-- The test and the writes of `scdk_ring_submit`.
unfoldable pub submit_to : Ring → RingDesc → Status × Ring
submit_to r desc =
    if leb r.entries (queue_count r.submit_head r.submit_tail) then (err busy, r) else (
      ok tt,
      record r {
        sq = update r.sq (r.submit_tail % r.entries) desc;
        submit_tail = advance r.submit_tail;
      },
    )

-- The test, the read and the write of `scdk_ring_consume`.
unfoldable pub consume_from : Ring → Result RingDesc × Ring
consume_from r =
    if r.submit_head == r.submit_tail
    then (err noent, r)
    else (ok (r.sq (r.submit_head % r.entries)), record r { submit_head = advance r.submit_head })

-- The test and the writes of `scdk_ring_complete`.
unfoldable pub complete_to : Ring → Completion → Status × Ring
complete_to r completion =
    if leb r.entries (queue_count r.complete_head r.complete_tail) then (err busy, r) else (
      ok tt,
      record r {
        cq = update r.cq (r.complete_tail % r.entries) completion;
        complete_tail = advance r.complete_tail;
      },
    )

-- The test, the read and the write of `scdk_ring_poll`.
unfoldable pub poll_from : Ring → Result Completion × Ring
poll_from r = if r.complete_head == r.complete_tail then (err noent, r) else (
  ok (r.cq (r.complete_head % r.entries)),
  record r { complete_head = advance r.complete_head },
)

-- What `object->payload` of a ring object points to: `create` alone makes such objects.
abbrev pub ring_at : Pointer → Result ℕ
ring_at (element ring_table i) = ok i
ring_at _ = err noent

-- `ring_lookup`: the index of the slot whose ring `*out_ring` points to.
unfoldable pub lookup : Kernel → ℕ → ℕ → Result ℕ
lookup k cap required = do
  entry ← Cap.check k.space cap required obj_ring
  object ← Object.lookup k.space.objects entry.object_id true
  i ← ring_at object.payload
  guard ((k.rings i).object_id == entry.object_id) noent
  ok i

abbrev pub with_ring : Kernel → ℕ → Ring → Kernel
with_ring k i r = record k { rings = update k.rings i (record (k.rings i) { ring = r }) }

abbrev pub fresh_ring : Ring → ℕ → ℕ → Ring
fresh_ring old entries bound_target = record old {
  entries = entries;
  submit_head = 0;
  submit_tail = 0;
  complete_head = 0;
  complete_tail = 0;
  bound_target = bound_target;
}

-- The body of the loop of `scdk_ring_create` at a free slot. If the token cannot be made, only the
-- slot's object id is cleared.
pub occupy : Kernel → ℕ → ℕ → ℕ → ℕ → Result ℕ × Kernel
unfolding new_object
occupy k i owner_core entries bound_target =
    let r = fresh_ring (k.rings i).ring entries bound_target in
    let set = λ (id : ℕ) (s : CapSpace). record k {
      space = s;
      rings = update k.rings i (record { object_id = id; ring = r });
    } in
    new_object (λ s. record k { space = s }) set (λ _. set 0) k.space obj_ring owner_core
      (element ring_table i) (bit_or right_read (bit_or right_write right_bind))

-- `if (bound_target != 0) scdk_cap_check(bound_target, ...)`
abbrev pub check_bound : Kernel → ℕ → Status
check_bound k target =
    if target == 0 then ok tt else (Cap.check k.space target right_send obj_endpoint >>= λ _. ok tt)

-- `scdk_ring_create`; `out` says that `out_ring` is not null.
unfoldable pub create : Kernel → ℕ → ℕ → ℕ → Bool → Result ℕ × Kernel
unfolding occupy
create k owner_core entries bound_target out =
    if entries == 0 || ltb ring_max_entries entries || not out
    then (err inval, k)
    else checked (check_bound k bound_target) k λ _.
      elim (find_slot (λ i. (k.rings i).object_id == 0) max_rings 0) [
        | none ↦ (err nomem, k)
        | some i ↦ occupy k i owner_core entries bound_target
      ]

-- `scdk_ring_bind_target`
unfoldable pub bind_target : Kernel → ℕ → ℕ → Status × Kernel
bind_target k ring target =
    if target == 0
    then (err inval, k)
    else checked (Cap.check k.space target right_send obj_endpoint) k λ _.
      checked (lookup k ring right_bind) k
        λ i. (ok tt, with_ring k i (record ((k.rings i).ring) { bound_target = target }))

-- `scdk_ring_bound_target`; `out` says that `out_target` is not null.
unfoldable pub bound_target : Kernel → ℕ → Bool → Result ℕ
bound_target k ring out = do
  guard out inval
  i ← lookup k ring right_read
  check_bound k (k.rings i).ring.bound_target
  ok (k.rings i).ring.bound_target

-- The four data-plane calls. A null pointer is `none`, or `false` for an out pointer.
unfoldable pub submit : Kernel → ℕ → Option RingDesc → Status × Kernel
submit k ring none = (err inval, k)
submit k ring (some desc) =
    checked (lookup k ring right_write) k
      λ i. let (status, r) = submit_to (k.rings i).ring desc in (status, with_ring k i r)

unfoldable pub consume : Kernel → ℕ → Bool → Result RingDesc × Kernel
consume k ring false = (err inval, k)
consume k ring true =
    checked (lookup k ring right_read) k
      λ i. let (desc, r) = consume_from (k.rings i).ring in (desc, with_ring k i r)

unfoldable pub complete : Kernel → ℕ → Option Completion → Status × Kernel
complete k ring none = (err inval, k)
complete k ring (some completion) =
    checked (lookup k ring right_write) k
      λ i. let (status, r) = complete_to (k.rings i).ring completion in (status, with_ring k i r)

unfoldable pub poll : Kernel → ℕ → Bool → Result Completion × Kernel
poll k ring false = (err inval, k)
poll k ring true =
    checked (lookup k ring right_read) k
      λ i. let (completion, r) = poll_from (k.rings i).ring in (completion, with_ring k i r)
