-- ===== src/Scheduler/Start.antt =====
-- How a thread enters the run queue.
use scdk.Base.{
  ℕ, ◌≡◌, ◌≢◌, refl, sym, ◌∙◌, ap, subst, inl, inr, true, List, [], ◌∷◌, ◌++◌, arith, ◌==◌,
  Bool-cases, ◌<◌,
}
use scdk.Status.{ok, Result-cases}
use scdk.Object.{obj_thread}
use scdk.Cap
use scdk.Cap.{right_exec}
use scdk.Scheduler.{
  Scheduler, max_threads, thread_new, thread_ready, thread_running, set_state, append_thread,
  enqueue_thread, thread_slot_for_cap,
}
use scdk.Scheduler.Threads.{check_start, thread_start}
use scdk.Scheduler.Queue.{
  Absent, Absent-Waits, Waits, Waits-seen, Waits-append, tokens, tokens-push, IsRing, seen, pushed,
  pushed-IsRing, slot_same,
}
use scdk.Scheduler.Rounds.{Runs}

-- What the tests of a start say.
check_start-eq-ok :
    (s : Scheduler) (thread : ℕ) {i : ℕ}
    → check_start s thread ≡ ok i
    → (thread_slot_for_cap s thread ≡ ok i) × ((s.threads i).state ≡ thread_new)
unfolding check_start
check_start-eq-ok s thread {i} h =
    elim (Result-cases (Cap.check s.space thread right_exec obj_thread)) [
      | inr (e, bad) ↦ absurd (ground arith)
      | inl (entry, good) ↦ elim (Result-cases (thread_slot_for_cap s thread)) [
        | inr (e, bad) ↦ absurd (ground arith)
        | inl (j, found) ↦ let same : j ≡ i = ground arith in (ground arith, ground arith)
      ]
    ]

enqueue_thread-eq-ok :
    (s : Scheduler) (i : ℕ) {s' : Scheduler}
    → enqueue_thread s i ≡ (ok tt, s')
    → ((s.threads i).owner_core ≡ 0) × ((s.queues 0).count < max_threads) × (append_thread s i ≡ s')
unfolding enqueue_thread
enqueue_thread-eq-ok s i h = (ground arith, ground arith, ground arith)

start-enqueue :
    (s : Scheduler) (thread i : ℕ) {s' : Scheduler}
    → check_start s thread ≡ ok i
    → thread_start s thread ≡ (ok tt, s')
    → enqueue_thread (set_state s i thread_ready) i ≡ (ok tt, s')
unfolding thread_start
start-enqueue s thread i checks h = ground arith

-- A thread that joins the queue.
module _ (s : Scheduler) (i : ℕ) where
  abbrev joined : Scheduler
  joined = append_thread (set_state s i thread_ready) i

  thread_joined : joined.threads i ≡ record (s.threads i) { state = thread_ready; queued = true }
  thread_joined = ground arith

  ids_joined : (j : ℕ) → (joined.threads j).object_id ≡ (s.threads j).object_id
  ids_joined j = ground arith

  others_joined : (j : ℕ) → i ≢ j → joined.threads j ≡ s.threads j
  others_joined j ne = ground arith

  queue_joined :
      (s.threads i).owner_core ≡ 0 → joined.queues 0 ≡ pushed (s.queues 0) (s.threads i).cap
  queue_joined core = ground arith

-- A thread that is started, by the token that its slot holds, waits behind all others.
thread_start-Runs :
    (s : Scheduler) (c i thread : ℕ) (q : List ℕ) {s' : Scheduler}
    → Runs s c q
    → check_start s thread ≡ ok i
    → (s.threads i).cap ≡ thread
    → thread_start s thread ≡ (ok tt, s')
    → Runs s' c (q ++ (i ∷ []))
thread_start-Runs s c i thread q {s'} r checks named h =
    subst (λ (x : Scheduler). Runs x c (q ++ (i ∷ []))) after
      (record {
        on = r.on;
        current = r.current;
        running = ap (λ u. u.state) other ∙ r.running;
        unqueued = ap (λ u. u.queued) other ∙ r.unqueued;
        core = ap (λ u. u.owner_core) other ∙ r.core;
        own =
            ap (λ u. thread_slot_for_cap (joined s i) u.cap) other ∙ same (s.threads c).cap ∙ r.own;
        only = λ j runs. elim (Bool-cases (i == j)) [
          | inl e ↦
              let k : i ≡ j = ground arith in
              let ready : ((joined s i).threads j).state ≡ thread_ready =
                ap (λ (x : ℕ). ((joined s i).threads x).state) (sym k) ∙ ap (λ u. u.state) here in
              absurd (omega arith)
          | inr n ↦
              let k : i ≢ j = ground arith in
              r.only j (ap (λ u. u.state) (sym (others_joined s i j k)) ∙ runs)
        ];
        ring = subst IsRing (sym queue) (pushed-IsRing (s.queues 0) (s.threads i).cap r.ring room);
        waits =
            subst (λ (l : List ℕ). Waits (joined s i) l (q ++ (i ∷ [])))
              (sym (ap tokens queue ∙ tokens-push (s.queues 0) (s.threads i).cap r.ring room))
              (Waits-append (s.threads i).cap i
                (Waits-seen i i same (λ j a _. ap seen (others_joined s i j a)) r.waits absent
                  absent)
                (record {
                  slot = ap (thread_slot_for_cap (joined s i)) named ∙ same thread ∙ found;
                  state = ap (λ u. u.state) here;
                  named = ap (λ u. u.cap) here;
                  core = ap (λ u. u.owner_core) here ∙ core;
                })
                absent);
      })
  where
    found : thread_slot_for_cap s thread ≡ ok i
    found = (check_start-eq-ok s thread checks).0

    new : (s.threads i).state ≡ thread_new
    new = (check_start-eq-ok s thread checks).1

    entered : enqueue_thread (set_state s i thread_ready) i ≡ (ok tt, s')
    entered = start-enqueue s thread i checks h

    core : (s.threads i).owner_core ≡ 0
    core = let e = (enqueue_thread-eq-ok (set_state s i thread_ready) i entered).0 in ground arith

    room : (s.queues 0).count < max_threads
    room = (enqueue_thread-eq-ok (set_state s i thread_ready) i entered).1

    after : joined s i ≡ s'
    after = (enqueue_thread-eq-ok (set_state s i thread_ready) i entered).2

    here : (joined s i).threads i ≡ record (s.threads i) { state = thread_ready; queued = true }
    here = thread_joined s i

    ne : i ≢ c
    ne e =
        let runs : (s.threads i).state ≡ thread_running = rw e r.running in
        let n = new in omega arith

    other : (joined s i).threads c ≡ s.threads c
    other = others_joined s i c ne

    absent : Absent i q
    absent = Absent-Waits i (λ e. let n = new in absurd (omega arith)) r.waits

    same : (t : ℕ) → thread_slot_for_cap (joined s i) t ≡ thread_slot_for_cap s t
    same = slot_same s (joined s i) refl (ids_joined s i)

    queue : (joined s i).queues 0 ≡ pushed (s.queues 0) (s.threads i).cap
    queue = queue_joined s i core
