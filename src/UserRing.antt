-- ===== src/UserRing.antt =====
-- src/core/user_ring.c: the rings that tasks make and bind, and their batches of descriptors and
-- completions in user memory. Log output is left out.
pub mod Batch
pub mod Laws
use scdk.Base.{
  ℕ, zero, suc, ◌+◌, ◌*◌, ◌/◌, ◌%◌, ◌^◌, Bool, true, false, not, ◌&&◌, ◌||◌, none, some, ltb, ◌==◌,
  if◌then◌else◌, List, [], ◌∷◌, update, find_slot,
}
use scdk.Status.{
  Result, Status, ok, err, inval, nomem, noent, bounds, busy, guard, checked, ◌>>=◌, ◌>>◌,
}
use scdk.Object.{boot_core, obj_task, obj_ring, obj_endpoint}
use scdk.Cap
use scdk.Cap.{right_read, right_send}
use scdk.Kernel.{
  Kernel, RingDesc, Completion, UserRingSlot, Message, max_user_rings, ring_max_entries,
}
use scdk.Endpoint.{Handlers, call}
use scdk.Ring as Rings
use scdk.UserSpace.{UserSpace, validate_range, copy_from, copy_to}

-- The sizes of the two structures, six and four words.
abbrev pub desc_size : ℕ
desc_size = 48

abbrev pub completion_size : ℕ
completion_size = 32

-- A 64-bit word in memory, low byte first.
unfoldable pub word_of : List ℕ → ℕ
word_of [] = 0
word_of (b ∷ bs) = b + 256 * word_of bs

unfoldable pub bytes_of : ℕ → ℕ → List ℕ
bytes_of zero word = []
bytes_of (suc n) word = word % 256 ∷ bytes_of n (word / 256)

-- `validate_count`
unfoldable pub validate_count : ℕ → Status
validate_count count = if count == 0 || ltb ring_max_entries count then err bounds else ok tt

abbrev pub is_slot_of : UserRingSlot → ℕ → ℕ → Bool
is_slot_of slot source_task ring_cap =
    slot.in_use && slot.source_task == source_task && slot.ring_cap == ring_cap

-- `user_ring_slot_for`: the index of the slot.
unfoldable pub slot_for : Kernel → ℕ → ℕ → Result ℕ
slot_for k source_task ring_cap = do
  guard (not (source_task == 0 || ring_cap == 0)) inval
  task ← Cap.check k.space source_task right_read obj_task
  ring ← Cap.check k.space ring_cap right_read obj_ring
  elim (find_slot (λ i. is_slot_of (k.user_rings i) source_task ring_cap) max_user_rings 0) [
    | none ↦ err noent
    | some i ↦ ok i
  ]

-- The slot that `scdk_user_ring_create` fills once it has the ring.
pub claim : ℕ → ℕ → Result ℕ × Kernel → Result ℕ × Kernel
claim i source_task (err e, k) = (err e, k)
claim i source_task (ok ring, k) = (
  ok ring,
  record k {
    user_rings =
        update k.user_rings i (record {
          in_use = true;
          source_task = source_task;
          ring_cap = ring;
          target_endpoint = 0;
        });
  },
)

-- `scdk_user_ring_create`; `out` says that `out_ring` is not null.
unfoldable pub create : Kernel → ℕ → ℕ → Bool → Result ℕ × Kernel
unfolding claim
create k source_task entries out =
    if source_task == 0 || not out
    then (err inval, k)
    else checked (validate_count entries) k λ _.
      checked (Cap.check k.space source_task right_read obj_task) k λ _.
        elim (find_slot (λ i. not (k.user_rings i).in_use) max_user_rings 0) [
          | none ↦ (err nomem, k)
          | some i ↦ claim i source_task (Rings.create k boot_core entries 0 true)
        ]

-- The slot once the ring is bound.
pub note_target : ℕ → ℕ → Status × Kernel → Status × Kernel
note_target i target (err e, k) = (err e, k)
note_target i target (ok _, k) = (
  ok tt,
  record k {
    user_rings = update k.user_rings i (record (k.user_rings i) { target_endpoint = target });
  },
)

-- `scdk_user_ring_bind`
unfoldable pub bind : Kernel → ℕ → ℕ → ℕ → Status × Kernel
unfolding note_target
bind k source_task ring_cap target =
    if target == 0
    then (err inval, k)
    else checked (slot_for k source_task ring_cap) k
        λ i. note_target i target (Rings.bind_target k ring_cap target)

-- The tests of the slot's endpoint in `scdk_user_ring_submit` and `scdk_user_ring_poll`.
unfoldable pub check_target : Kernel → UserRingSlot → Status
check_target k slot = do
  guard (not (slot.target_endpoint == 0)) busy
  entry ← Cap.check k.space slot.target_endpoint right_send obj_endpoint
  ok tt
