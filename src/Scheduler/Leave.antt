-- ===== src/Scheduler/Leave.antt =====
-- How a thread leaves the processor and does not wait for it: as the driver of the scheduler, or when
-- it has ended.
use scdk.Base.{ℕ, ◌≡◌, ◌≢◌, refl, sym, ◌∙◌, ap, subst, Option, some, true, false, List, ◌∷◌, arith}
use scdk.Scheduler.{
  Scheduler, give_way, pass_on, exit_thread, thread_dead, thread_running, thread_blocked, set_state,
  is_slot, switched, switch_to_thread, yield,
}
use scdk.Scheduler.Queue.{
  dequeue_thread-Ready, First, Waits-First, Absent, Waits-seen, Ready, seen, dropped-IsRing, taken,
  slot_same,
}
use scdk.Scheduler.Rounds.{
  Runs, Leaves, Leaves-Runs, Runs-Absent, yield-passes, states-switched, yield-taken,
  give_way_blocks, switch_to_thread_other,
}
use scdk.Scheduler.Turns.{Undriven, first_other}

-- The state in which thread `c` has left the processor to thread `i` and does not wait.
module _ (s : Scheduler) (c i state : ℕ) where
  abbrev left : Scheduler
  left = set_state (taken s i) c state

  thread_left : (left.threads c).state ≡ state
  thread_left = ground arith

  ids_left : (j : ℕ) → (left.threads j).object_id ≡ (s.threads j).object_id
  ids_left j = ground arith

  next_left : i ≢ c → left.threads i ≡ record (s.threads i) { queued = false }
  next_left ne = ground arith

  others_left : (j : ℕ) → i ≢ j → c ≢ j → left.threads j ≡ s.threads j
  others_left j a b = ground arith

left-Leaves :
    (s : Scheduler) (c i state : ℕ) (q : List ℕ)
    → i ≢ c
    → state ≢ thread_running
    → Runs s c (i ∷ q)
    → First s (s.queues 0) i q
    → Leaves s (left s c i state) c i q
left-Leaves s c i state q ne stops r first = record {
  on = r.on;
  space = refl;
  ids = ids_left s c i state;
  here = next_left s c i state ne;
  stopped = λ e. stops (sym (thread_left s c i state) ∙ e);
  others = others_left s c i state;
  ring = dropped-IsRing (s.queues 0) r.ring (λ e. let n = first.count in omega arith);
  waits =
      Waits-seen i c (slot_same s (left s c i state) refl (ids_left s c i state))
        (λ j a b. ap seen (others_left s c i state j a b)) first.waits first.alone
        ((Runs-Absent s c (i ∷ q) r).1);
}

taken_state :
    (s : Scheduler) (c i : ℕ) → i ≢ c → ((taken s i).threads c).state ≡ (s.threads c).state
taken_state s c i ne = ground arith

driver_found : (s : Scheduler) (c : ℕ) → s.driver_slot ≡ some c → is_slot s.driver_slot c ≡ true
driver_found s c e = ground arith

some_same : {c d : ℕ} (o : Option ℕ) → o ≡ some c → o ≡ some d → c ≡ d
some_same o a b = ground arith

-- When the driver of the scheduler yields and others wait, the one that has waited longest runs,
-- alone, and the driver blocks and does not wait in the queue.
yield-Runs_driver :
    (s : Scheduler) (c i : ℕ) (q : List ℕ)
    → Runs s c (i ∷ q)
    → s.driver_slot ≡ some c
    → Runs (yield s) i q × Undriven (yield s)
yield-Runs_driver s c i q r driver =
    subst (λ (x : Scheduler). Runs x i q × Undriven x) (sym gone)
      (
        Leaves-Runs s m c i q ne first.ready r.only
            (left-Leaves s c i thread_blocked q ne (λ e. absurd (omega arith)) r first) first.alone,
        λ d e.
            let same : c ≡ d = some_same s.driver_slot driver e in
            subst (λ (k : ℕ). ((switched m c i).threads k).state ≡ thread_blocked) same
              (states-switched m c i c ne ∙ thread_left s c i thread_blocked),
      )
  where
    ne : i ≢ c
    ne = first_other s c i q r

    first : First s (s.queues 0) i q
    first = Waits-First s (s.queues 0) i q r.ring r.waits

    m : Scheduler
    m = left s c i thread_blocked

    gone : yield s ≡ switched m c i
    gone =
        yield-taken s c i q r
        ∙ give_way_blocks (taken s i) c i (taken_state s c i ne ∙ r.running)
            (driver_found s c driver)
        ∙ switch_to_thread_other m c i r.current ne

give_way_stops :
    (s : Scheduler) (old next : ℕ)
    → (s.threads old).state ≢ thread_running
    → give_way s old next ≡ switch_to_thread s next
unfolding give_way
give_way_stops s old next stopped = ground arith

-- The state in which thread `c` has ended, and the one in which thread `i` is then taken.
module _ (s : Scheduler) (c i : ℕ) (ne : i ≢ c) where
  abbrev ended : Scheduler
  ended = set_state s c thread_dead

  next_ended : ended.threads i ≡ s.threads i
  next_ended = ground arith

  core_ended : (ended.threads c).owner_core ≡ (s.threads c).owner_core
  core_ended = ground arith

  ids_ended : (j : ℕ) → (ended.threads j).object_id ≡ (s.threads j).object_id
  ids_ended j = ground arith

  thread_ended : ((taken ended i).threads c).state ≡ thread_dead
  thread_ended = ground arith

  ids_taken : (j : ℕ) → ((taken ended i).threads j).object_id ≡ (s.threads j).object_id
  ids_taken j = ground arith

  next_taken : (taken ended i).threads i ≡ record (s.threads i) { queued = false }
  next_taken = ground arith

  others_taken : (j : ℕ) → i ≢ j → c ≢ j → (taken ended i).threads j ≡ s.threads j
  others_taken j a b = ground arith

ended-Leaves :
    (s : Scheduler) (c i : ℕ) (q : List ℕ) (ne : i ≢ c)
    → Runs s c (i ∷ q)
    → First s (s.queues 0) i q
    → Leaves s (taken (ended s c i ne) i) c i q
ended-Leaves s c i q ne r first = record {
  on = r.on;
  space = refl;
  ids = ids_taken s c i ne;
  here = next_taken s c i ne;
  stopped = λ e. let dead = thread_ended s c i ne in absurd (omega arith);
  others = others_taken s c i ne;
  ring = dropped-IsRing (s.queues 0) r.ring (λ e. let n = first.count in omega arith);
  waits =
      Waits-seen i c (slot_same s (taken (ended s c i ne) i) refl (ids_taken s c i ne))
        (λ j a b. ap seen (others_taken s c i ne j a b)) first.waits first.alone
        ((Runs-Absent s c (i ∷ q) r).1);
}

exit-yields :
    (s : Scheduler) (c : ℕ)
    → s.current_slot ≡ some c
    → exit_thread s ≡ yield (set_state s c thread_dead)
unfolding exit_thread
exit-yields s c current = rw current refl

-- When a thread ends and others wait, the one that has waited longest runs, alone, and the thread
-- that ended is dead and waits no more.
pub exit_thread-Runs :
    (s : Scheduler) (c i : ℕ) (q : List ℕ)
    → Runs s c (i ∷ q)
    → Runs (exit_thread s) i q × (((exit_thread s).threads c).state ≡ thread_dead) × Absent c q
unfolding pass_on
exit_thread-Runs s c i q r =
    subst (λ (x : Scheduler). Runs x i q × ((x.threads c).state ≡ thread_dead) × Absent c q)
      (sym gone)
      (
        Leaves-Runs s (taken s0 i) c i q ne first.ready r.only (ended-Leaves s c i q ne r first)
            first.alone,
        states-switched (taken s0 i) c i c ne ∙ thread_ended s c i ne,
        (Runs-Absent s c (i ∷ q) r).1,
      )
  where
    ne : i ≢ c
    ne = first_other s c i q r

    first : First s (s.queues 0) i q
    first = Waits-First s (s.queues 0) i q r.ring r.waits

    s0 : Scheduler
    s0 = ended s c i ne

    same : s0.threads i ≡ s.threads i
    same = next_ended s c i ne

    ready : Ready s0 ((s.queues 0).entries (s.queues 0).head) i
    ready = record {
      slot = slot_same s s0 refl (ids_ended s c i ne) _ ∙ first.ready.slot;
      state = ap (λ t. t.state) same ∙ first.ready.state;
      named = ap (λ t. t.cap) same ∙ first.ready.named;
      core = ap (λ t. t.owner_core) same ∙ first.ready.core;
    }

    gone : exit_thread s ≡ switched (taken s0 i) c i
    gone =
        exit-yields s c r.current
        ∙ yield-passes s0 c r.on r.current (core_ended s c i ne ∙ r.core)
        ∙ ap (λ (d : Option ℕ × Scheduler). pass_on d.1 c d.0)
            (dequeue_thread-Ready s0 first.rest i first.count ready)
        ∙ give_way_stops (taken s0 i) c i
            (λ e. let dead = thread_ended s c i ne in absurd (omega arith))
        ∙ switch_to_thread_other (taken s0 i) c i r.current ne
