-- ===== src/UserRing/Batch.antt =====
-- src/core/user_ring.c: batches of descriptors from user memory to a ring, and of completions from a
-- ring to user memory.
use scdk.Base.{
  ℕ, zero, suc, ◌+◌, ◌*◌, ◌%◌, ◌^◌, Bool, true, false, not, ◌||◌, some, ◌==◌, List, [], ◌∷◌, ◌++◌,
}
use scdk.Status.{Result, Status, ok, err, inval, noent, guard, checked}
use scdk.Kernel.{Kernel, RingDesc, Completion}
use scdk.Message
use scdk.Message.{msg_ring_process}
use scdk.Endpoint.{Handlers, call}
use scdk.Ring as Rings
use scdk.UserSpace.{UserSpace, validate_range, copy_from, copy_to}
use scdk.UserRing.{
  desc_size, completion_size, word_of, bytes_of, validate_count, slot_for, check_target,
}

-- The word at a field's place in a structure.
pub field : List ℕ → ℕ → ℕ
unfolding word_of
field [] place = 0
field (b ∷ bs) zero = word_of (b ∷ bs) % 2 ^ 64
field (b ∷ bs) (suc place) = field bs place

-- A `struct scdk_ring_desc` in memory.
unfoldable pub desc_of : List ℕ → RingDesc
unfolding field
desc_of bytes = record {
  op = field bytes 0;
  cap = field bytes 8;
  grant = field bytes 16;
  offset = field bytes 24;
  length = field bytes 32;
  flags = field bytes 40;
}

-- A `struct scdk_completion` in memory.
unfoldable pub completion_bytes : Completion → List ℕ
completion_bytes c =
    bytes_of 8 c.op ++ bytes_of 8 c.status ++ bytes_of 8 c.result0 ++ bytes_of 8 c.result1

-- The loop of `scdk_user_ring_submit` from round `i` on, with `left` rounds to go.
unfoldable pub submit_descs : ℕ → ℕ → UserSpace → Kernel → ℕ → ℕ → Status × Kernel
submit_descs zero i u k ring_cap user_descs = (ok tt, k)
submit_descs (suc left) i u k ring_cap user_descs =
    checked (copy_from u ((user_descs + i * desc_size) % 2 ^ 64) true desc_size) k λ bytes.
      let (status, k') = Rings.submit k ring_cap (some (desc_of bytes)) in
      checked status k' λ _. submit_descs left (i + 1) u k' ring_cap user_descs

-- The call that tells the slot's endpoint of the batch.
unfoldable pub notify : Handlers → Kernel → ℕ → ℕ → ℕ → ℕ → Status × Kernel
notify handlers k endpoint source_task ring_cap count =
    let msg = record (Message.init source_task 0 msg_ring_process) {
      arg0 = ring_cap;
      arg1 = count;
    } in
    let (status, msg', k') = call handlers k endpoint msg in (status, k')

-- `scdk_user_ring_submit`. The batch's size does not wrap: `count` is at most 64.
unfoldable pub submit : Handlers → UserSpace → Kernel → ℕ → ℕ → ℕ → ℕ → Status × Kernel
unfolding submit_descs notify
submit handlers u k source_task ring_cap user_descs count = checked (validate_count count) k λ _.
    checked (guard (not (user_descs == 0)) inval) k λ _.
      checked (slot_for k source_task ring_cap) k λ i.
        checked (check_target k (k.user_rings i)) k λ _.
          checked (validate_range u user_descs (desc_size * count) false) k λ _.
            let (status, k') = submit_descs count 0 u k ring_cap user_descs in
            checked status k'
              λ _. notify handlers k' (k'.user_rings i).target_endpoint source_task ring_cap count

-- What the loop of `scdk_user_ring_poll` does with the answer of a poll of the ring.
unfoldable pub store :
    Result Completion
    → ℕ
    → UserSpace × Kernel
    → ℕ
    → (UserSpace × Kernel → Result ℕ × (UserSpace × Kernel))
    → Result ℕ × (UserSpace × Kernel)
store (err noent) polled s address next = (ok polled, s)
store (err e) polled s address next = (err e, s)
store (ok completion) polled (u, k) address next =
    let (status, u') = copy_to u address (completion_bytes completion) in
    checked status (u', k) λ _. next (u', k)

-- The loop from `polled` completions on, with `left` rounds to go.
unfoldable pub poll_completions :
    ℕ → ℕ → UserSpace × Kernel → ℕ → ℕ → Result ℕ × (UserSpace × Kernel)
unfolding store
poll_completions zero polled s ring_cap user_completions = (ok polled, s)
poll_completions (suc left) polled (u, k) ring_cap user_completions =
    let (completion, k') = Rings.poll k ring_cap true in
    store completion polled (u, k') ((user_completions + polled * completion_size) % 2 ^ 64)
      λ s. poll_completions left (polled + 1) s ring_cap user_completions

-- `scdk_user_ring_poll`; `out` says that `out_count` is not null.
unfoldable pub poll : UserSpace → Kernel → ℕ → ℕ → ℕ → ℕ → Bool → Result ℕ × (UserSpace × Kernel)
unfolding poll_completions
poll u k source_task ring_cap user_completions max_count out =
    checked (validate_count max_count) (u, k)
      λ _.
        checked (guard (not (user_completions == 0 || not out)) inval) (u, k)
          λ _.
            checked (slot_for k source_task ring_cap) (u, k)
              λ i.
                checked (check_target k (k.user_rings i)) (u, k)
                  λ _.
                    checked (validate_range u user_completions (completion_size * max_count) true)
                      (u, k) λ _. poll_completions max_count 0 (u, k) ring_cap user_completions
