-- ===== src/UserRing/Laws.antt =====
-- What binding a task's ring gives, and that a poll's count keeps to the caller's array.
use scdk.Base.{
  ℕ, zero, suc, ◌+◌, ◌*◌, ◌≤◌, ◌≡◌, refl, ap, subst, inl, inr, Bool, true, not, ◌||◌, ◌==◌, arith,
  update, update_self, Bool-cases,
}
use scdk.Status.{
  Result, Status, ok, err, inval, nomem, noent, perm, bounds, busy, notsup, Result-cases, checked,
  guard,
}
use scdk.Cap.{right_read}
use scdk.Kernel.{Kernel, UserRingSlot, Completion}
use scdk.Ring as Rings
use scdk.Ring.Access.{bound_target-bind_target}
use scdk.UserSpace.{UserSpace, copy_to, validate_range}
use scdk.UserRing.{slot_for, bind, note_target, validate_count, check_target, completion_size}
use scdk.UserRing.Batch.{store, poll_completions, poll, completion_bytes}

store_bounded :
    (r : Result Completion) (polled most address : ℕ) (s : UserSpace × Kernel)
    (next : UserSpace × Kernel → Result ℕ × (UserSpace × Kernel)) {n : ℕ}
    → polled ≤ most
    → ((t : UserSpace × Kernel) → (next t).0 ≡ ok n → n ≤ most)
    → (store r polled s address next).0 ≡ ok n
    → n ≤ most
unfolding store
store_bounded (err inval) polled most address s next le ind h = ground arith
store_bounded (err nomem) polled most address s next le ind h = ground arith
store_bounded (err noent) polled most address s next le ind h = ground arith
store_bounded (err perm) polled most address s next le ind h = ground arith
store_bounded (err bounds) polled most address s next le ind h = ground arith
store_bounded (err busy) polled most address s next le ind h = ground arith
store_bounded (err notsup) polled most address s next le ind h = ground arith
store_bounded (ok c) polled most address (u, k) next le ind h =
    elim (Result-cases (copy_to u address (completion_bytes c)).0) [
      | inl (done, fine) ↦ ind ((copy_to u address (completion_bytes c)).1, k) (ground arith)
      | inr (e, bad) ↦ absurd (ground arith)
    ]

poll_completions_bounded :
    (left polled : ℕ) (s : UserSpace × Kernel) (ring_cap completions : ℕ) {n : ℕ}
    → (poll_completions left polled s ring_cap completions).0 ≡ ok n
    → n ≤ polled + left
unfolding poll_completions
poll_completions_bounded zero polled s ring_cap completions h = ground arith
poll_completions_bounded (suc left) polled (u, k) ring_cap completions h =
    let (completion, k') = Rings.poll k ring_cap true in
    store_bounded completion polled (polled + suc left) _ (u, k') _ (omega arith)
      (λ t h'.
        let r = poll_completions_bounded left (polled + 1) t ring_cap completions h' in omega arith)
      h

checked-eq-ok {ℓ κ ι} :
    {A : Type ℓ} {B : Type κ} {S : Type ι} (r : Result A) (s : S) (f : A → Result B × S) {b : B}
    → (checked r s f).0 ≡ ok b
    → (a : A) × ((f a).0 ≡ ok b)
checked-eq-ok (ok a) s f h = (a, h)
checked-eq-ok (err e) s f h = absurd (ground arith)

-- A poll reports no more completions than the caller's array has room for.
poll_bounded :
    (u : UserSpace) (k : Kernel) (source_task ring_cap completions max_count : ℕ) (out : Bool)
    {n : ℕ}
    → (poll u k source_task ring_cap completions max_count out).0 ≡ ok n
    → n ≤ max_count
unfolding poll
poll_bounded u k source_task ring_cap completions max_count out {n} h =
    let in_count = checked-eq-ok (validate_count max_count) (u, k) _ h in
    let in_memory =
      checked-eq-ok (guard (not (completions == 0 || not out)) inval) (u, k) _ in_count.1 in
    let in_slot = checked-eq-ok (slot_for k source_task ring_cap) (u, k) _ in_memory.1 in
    let in_target = checked-eq-ok (check_target k (k.user_rings in_slot.0)) (u, k) _ in_slot.1 in
    let in_range =
      checked-eq-ok (validate_range u completions (completion_size * max_count) true) (u, k) _
        in_target.1 in
    let r : n ≤ 0 + max_count =
      poll_completions_bounded max_count 0 (u, k) ring_cap completions in_range.1 in
    omega (arith, r)

-- A noted target: the ring was bound, and the kernel is changed at the slot alone.
note_target-eq-ok :
    (i target : ℕ) (r : Status × Kernel) {k' : Kernel}
    → note_target i target r ≡ (ok tt, k')
    → (r.0 ≡ ok tt)
      × (record (r.1) {
        user_rings =
            update r.1.user_rings i (record (r.1.user_rings i) { target_endpoint = target });
      }
          ≡ k')
unfolding note_target
note_target-eq-ok i target (err e, k) h = absurd (ground arith)
note_target-eq-ok i target (ok done, k) h = (refl, ap (λ r. r.1) h)

-- After a task binds its ring, the ring answers with the endpoint, and so does the task's slot.
bind-eq-ok :
    (k : Kernel) (source_task ring_cap target : ℕ) {i j : ℕ} {k' : Kernel}
    → slot_for k source_task ring_cap ≡ ok i
    → Rings.lookup k ring_cap right_read ≡ ok j
    → bind k source_task ring_cap target ≡ (ok tt, k')
    → ((k'.user_rings i).target_endpoint ≡ target)
      × (Rings.bound_target k' ring_cap true ≡ ok target)
unfolding bind Rings.bound_target Rings.lookup
bind-eq-ok k source_task ring_cap target {i} {j} {k'} at found h = elim (Bool-cases (target == 0)) [
  | inl null ↦ absurd (ground arith)
  | inr given ↦
      let step : note_target i target (Rings.bind_target k ring_cap target) ≡ (ok tt, k') =
        ground arith in
      let n = note_target-eq-ok i target (Rings.bind_target k ring_cap target) step in
      let bound =
        bound_target-bind_target k ring_cap target {k' = (Rings.bind_target k ring_cap target).1}
          (ap (λ s. (s, (Rings.bind_target k ring_cap target).1)) n.0) found in
      subst
        (λ q.
          ((q.user_rings i).target_endpoint ≡ target)
          × (Rings.bound_target q ring_cap true ≡ ok target))
        n.1
        (
          ap (λ (s : UserRingSlot). s.target_endpoint)
              (update_self (Rings.bind_target k ring_cap target).1.user_rings i _),
          bound,
        )
]
