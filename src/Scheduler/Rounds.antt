-- ===== src/Scheduler/Rounds.antt =====
-- Yielding against its specification: one thread runs, the others take turns in the order in which
-- they began to wait.
use scdk.Base.{
  ℕ, ◌+◌, ◌%◌, ◌≤◌, ◌<◌, ◌≡◌, ◌≢◌, refl, sym, ◌∙◌, ap, subst, inl, inr, Option, some, true, false,
  List, [], ◌∷◌, ◌++◌, arith, update, leb, ◌==◌, Bool-cases,
}
use scdk.Status.{ok}
use scdk.Scheduler.{
  Scheduler, max_threads, thread_ready, thread_running, thread_blocked, thread_slot_for_cap,
  set_state, append_thread, drop_first, is_slot, switched, switch_to_thread, give_way, pass_on,
  yield, enqueue_thread, dequeue_thread,
}
use scdk.Scheduler.Queue.{
  dropped, pushed, dropped-IsRing, pushed-IsRing, First, Waits-First, Absent-Waits, IsRing, Ready,
  seen, Absent, Waits, tokens, Waits-seen, Waits-append, tokens-push, taken, slot_same,
  dequeue_thread-Ready, enqueue_thread-room,
}

-- The thread in slot `c` runs, alone, and those in the slots `q` wait in that order.
pub record Runs (s : Scheduler) (c : ℕ) (q : List ℕ) : Type 0 where
  pub on : s.initialized ≡ true
  pub current : s.current_slot ≡ some c
  pub running : (s.threads c).state ≡ thread_running
  pub unqueued : (s.threads c).queued ≡ false
  pub core : (s.threads c).owner_core ≡ 0
  pub own : thread_slot_for_cap s (s.threads c).cap ≡ ok c
  pub only : (j : ℕ) → (s.threads j).state ≡ thread_running → j ≡ c
  pub ring : IsRing (s.queues 0)
  pub waits : Waits s (tokens (s.queues 0)) q

-- The state `m` in which a thread `c` has left the processor for the thread `i`, before the switch.
pub record Leaves (s m : Scheduler) (c i : ℕ) (q : List ℕ) : Type 0 where
  pub on : m.initialized ≡ true
  pub space : m.space ≡ s.space
  pub ids : (j : ℕ) → (m.threads j).object_id ≡ (s.threads j).object_id
  pub here : m.threads i ≡ record (s.threads i) { queued = false }
  pub stopped : (m.threads c).state ≢ thread_running
  pub others : (j : ℕ) → i ≢ j → c ≢ j → m.threads j ≡ s.threads j
  pub ring : IsRing (m.queues 0)
  pub waits : Waits m (tokens (m.queues 0)) q

ids-switched :
    (m : Scheduler) (c i j : ℕ) → ((switched m c i).threads j).object_id ≡ (m.threads j).object_id
ids-switched m c i j = ground arith

pub states-switched :
    (m : Scheduler) (c i j : ℕ) → i ≢ j → ((switched m c i).threads j).state ≡ (m.threads j).state
states-switched m c i j ne = ground arith

looks-switched :
    (m : Scheduler) (c i j : ℕ) → i ≢ j → seen ((switched m c i).threads j) ≡ seen (m.threads j)
looks-switched m c i j ne = ground arith

next-switched :
    (m : Scheduler) (c i : ℕ)
    → i ≢ c
    → (switched m c i).threads i ≡ record (m.threads i) { state = thread_running }
next-switched m c i ne = ground arith

pub Leaves-Runs :
    (s m : Scheduler) (c i : ℕ) (q : List ℕ) {token : ℕ}
    → i ≢ c
    → Ready s token i
    → ((j : ℕ) → (s.threads j).state ≡ thread_running → j ≡ c)
    → Leaves s m c i q
    → Absent i q
    → Runs (switched m c i) i q
Leaves-Runs s m c i q {token} ne r only l absent = record {
  on = l.on;
  current = refl;
  running = ap (λ u. u.state) at;
  unqueued = ap (λ u. u.queued) at ∙ ap (λ u. u.queued) l.here;
  core = ap (λ u. u.owner_core) at ∙ ap (λ u. u.owner_core) l.here ∙ r.core;
  own = ap (thread_slot_for_cap (switched m c i)) name ∙ same token ∙ r.slot;
  only = λ j runs. elim (Bool-cases (i == j)) [
    | inl e ↦ ground arith
    | inr n ↦
        let at_m : (m.threads j).state ≡ thread_running =
          sym (states-switched m c i j (ground arith)) ∙ runs in
        elim (Bool-cases (c == j)) [
          | inl e ↦ let k : c ≡ j = ground arith in absurd (l.stopped (rw k at_m))
          | inr n' ↦
              let k = l.others j (ground arith) (ground arith) in
              let ne' : c ≢ j = ground arith in
              absurd (ne' (sym (only j (sym (ap (λ u. u.state) k) ∙ at_m))))
        ]
  ];
  ring = l.ring;
  waits =
      Waits-seen i i (slot_same m (switched m c i) refl (ids-switched m c i))
        (λ j ne' _. looks-switched m c i j ne') l.waits absent absent;
}
  where
    at : (switched m c i).threads i ≡ record (m.threads i) { state = thread_running }
    at = next-switched m c i ne

    name : ((switched m c i).threads i).cap ≡ token
    name = ap (λ u. u.cap) at ∙ ap (λ u. u.cap) l.here ∙ r.named

    same : (t : ℕ) → thread_slot_for_cap (switched m c i) t ≡ thread_slot_for_cap s t
    same = slot_same s (switched m c i) l.space (λ j. ids-switched m c i j ∙ l.ids j)

-- The thread that runs waits nowhere.
pub Runs-Absent : (s : Scheduler) (c : ℕ) (q : List ℕ) → Runs s c q → Absent c q
Runs-Absent s c q r = Absent-Waits c (λ e. let on = r.running in omega arith) r.waits

-- A round begins by taking the first thread that waits.
pub yield-passes :
    (s : Scheduler) (c : ℕ)
    → s.initialized ≡ true
    → s.current_slot ≡ some c
    → (s.threads c).owner_core ≡ 0
    → yield s ≡ pass_on (dequeue_thread s 0).1 c (dequeue_thread s 0).0
unfolding yield
yield-passes s c on current core =
    let started : yield s
        ≡ pass_on (dequeue_thread s (s.threads c).owner_core).1 c
            (dequeue_thread s (s.threads c).owner_core).0 =
      ground arith in
    started ∙ ap (λ (k : ℕ). pass_on (dequeue_thread s k).1 c (dequeue_thread s k).0) core

pub yield-taken :
    (s : Scheduler) (c i : ℕ) (q : List ℕ) → Runs s c (i ∷ q) → yield s ≡ give_way (taken s i) c i
unfolding pass_on
yield-taken s c i q r =
    let first = Waits-First s (s.queues 0) i q r.ring r.waits in
    let found = dequeue_thread-Ready s first.rest i first.count first.ready in
    yield-passes s c r.on r.current r.core
    ∙ ap (λ (d : Option ℕ × Scheduler). pass_on d.1 c d.0) found

give_way_requeues :
    (s t : Scheduler) (old next : ℕ)
    → (s.threads old).state ≡ thread_running
    → is_slot s.driver_slot old ≡ false
    → enqueue_thread (set_state s old thread_ready) old ≡ (ok tt, t)
    → give_way s old next ≡ switch_to_thread t next
unfolding give_way
give_way_requeues s t old next running no_driver joined = ground arith

pub give_way_blocks :
    (s : Scheduler) (old next : ℕ)
    → (s.threads old).state ≡ thread_running
    → is_slot s.driver_slot old ≡ true
    → give_way s old next ≡ switch_to_thread (set_state s old thread_blocked) next
unfolding give_way
give_way_blocks s old next running driver = ground arith

pub switch_to_thread_other :
    (s : Scheduler) (old next : ℕ)
    → s.current_slot ≡ some old
    → next ≢ old
    → switch_to_thread s next ≡ switched s old next
unfolding switch_to_thread
switch_to_thread_other s old next current ne = ground arith

-- What the round of a thread that is no driver has done before the switch.
abbrev pub requeued : Scheduler → ℕ → ℕ → Scheduler
requeued s c i = append_thread (set_state (taken s i) c thread_ready) c

module _ (s : Scheduler) (c i : ℕ) (ne : i ≢ c) where
  thread_requeued :
      (requeued s c i).threads c ≡ record (s.threads c) { state = thread_ready; queued = true }
  thread_requeued = ground arith

  next_requeued : (requeued s c i).threads i ≡ record (s.threads i) { queued = false }
  next_requeued = ground arith

  pub others_requeued : (j : ℕ) → i ≢ j → c ≢ j → (requeued s c i).threads j ≡ s.threads j
  others_requeued j a b = ground arith

  ids_requeued : (j : ℕ) → ((requeued s c i).threads j).object_id ≡ (s.threads j).object_id
  ids_requeued j = ground arith

  queue_requeued :
      (s.threads c).owner_core ≡ 0
      → let q = (drop_first s 0).queues 0 in
        (requeued s c i).queues 0 ≡ record {
          entries = update q.entries q.tail (s.threads c).cap;
          head = q.head;
          tail = (q.tail + 1) % max_threads;
          count = q.count + 1;
        }
  queue_requeued core = ground arith

  pub give_way-requeued :
      (s.threads c).state ≡ thread_running
      → (s.threads c).queued ≡ false
      → (s.threads c).owner_core ≡ 0
      → s.current_slot ≡ some c
      → is_slot s.driver_slot c ≡ false
      → (s.queues 0).count ≤ max_threads
      → give_way (taken s i) c i ≡ switched (requeued s c i) c i
  give_way-requeued running unqueued core current no_driver few =
      let t = set_state (taken s i) c thread_ready in
      let a : (t.threads c).owner_core ≡ 0 = ground arith in
      let b : (t.threads c).queued ≡ false = ground arith in
      let d : (t.threads c).state ≡ thread_ready = ground arith in
      let e : leb max_threads (t.queues 0).count ≡ false = ground arith in
      let on : ((taken s i).threads c).state ≡ thread_running = ground arith in
      give_way_requeues (taken s i) (requeued s c i) c i on no_driver
        (enqueue_thread-room t c a b d e)
      ∙ switch_to_thread_other (requeued s c i) c i current ne

-- A thread that runs and no driver: before the switch it waits behind all others.
pub requeued-Leaves :
    (s : Scheduler) (c i : ℕ) (q : List ℕ)
    → i ≢ c
    → Runs s c (i ∷ q)
    → Leaves s (requeued s c i) c i (q ++ (c ∷ []))
requeued-Leaves s c i q ne r = record {
  on = r.on;
  space = refl;
  ids = ids_requeued s c i ne;
  here = next_requeued s c i ne;
  stopped = λ e. let ready = ap (λ u. u.state) here in omega arith;
  others = others_requeued s c i ne;
  ring =
      subst IsRing (sym queue) (pushed-IsRing (dropped (s.queues 0)) (s.threads c).cap ring room);
  waits =
      subst (λ (l : List ℕ). Waits (requeued s c i) l (q ++ (c ∷ [])))
        (sym (ap tokens queue ∙ tokens-push (dropped (s.queues 0)) (s.threads c).cap ring room))
        (Waits-append (s.threads c).cap c kept last alone);
}
  where
    first : First s (s.queues 0) i q
    first = Waits-First s (s.queues 0) i q r.ring r.waits

    some_left : (s.queues 0).count ≢ 0
    some_left e = let n = first.count in omega arith

    ring : IsRing (dropped (s.queues 0))
    ring = dropped-IsRing (s.queues 0) r.ring some_left

    room : (dropped (s.queues 0)).count < max_threads
    room = let few = r.ring.few in omega arith

    here : (requeued s c i).threads c ≡ record (s.threads c) { state = thread_ready; queued = true }
    here = thread_requeued s c i ne

    queue : (requeued s c i).queues 0 ≡ pushed (dropped (s.queues 0)) (s.threads c).cap
    queue = queue_requeued s c i ne r.core

    same : (t : ℕ) → thread_slot_for_cap (requeued s c i) t ≡ thread_slot_for_cap s t
    same = slot_same s (requeued s c i) refl (ids_requeued s c i ne)

    alone : Absent c q
    alone = (Runs-Absent s c (i ∷ q) r).1

    kept : Waits (requeued s c i) (tokens (dropped (s.queues 0))) q
    kept =
        Waits-seen i c same (λ j a b. ap seen (others_requeued s c i ne j a b)) first.waits
          first.alone alone

    last : Ready (requeued s c i) (s.threads c).cap c
    last = record {
      slot = same (s.threads c).cap ∙ r.own;
      state = ap (λ u. u.state) here;
      named = ap (λ u. u.cap) here;
      core = ap (λ u. u.owner_core) here ∙ r.core;
    }
