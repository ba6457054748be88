-- ===== src/Scheduler/Turns.antt =====
-- The order in which threads run: each yield lets the one run that has waited longest.
use scdk.Base.{
  ℕ, zero, suc, ◌≡◌, ◌≢◌, refl, sym, ◌∙◌, ap, subst, inl, inr, Option, none, some, false, List, [],
  ◌∷◌, ◌++◌, length, arith, ◌==◌, Bool-cases,
}
use mathlib.Core.List.{append_assoc}
use scdk.Scheduler.{
  Scheduler, thread_ready, thread_running, thread_blocked, is_slot, switched, yield,
}
use scdk.Scheduler.Queue.{Waits-First, Absent-append}
use scdk.Scheduler.Rounds.{
  Runs, Leaves-Runs, Runs-Absent, yield-taken, requeued, requeued-Leaves, give_way-requeued,
  states-switched, others_requeued,
}

-- No driver runs: there is none, or it waits for the run queue to empty.
abbrev pub Undriven : Scheduler → Type 0
Undriven s = (d : ℕ) → s.driver_slot ≡ some d → (s.threads d).state ≡ thread_blocked

Undriven-is_slot :
    (s : Scheduler) (c : ℕ)
    → Undriven s
    → (s.threads c).state ≡ thread_running
    → is_slot s.driver_slot c ≡ false
Undriven-is_slot s c u running = driver-cases s.driver_slot refl
  where
    driver-cases : (o : Option ℕ) → s.driver_slot ≡ o → is_slot o c ≡ false
    driver-cases none e = refl
    driver-cases (some d) e = elim (Bool-cases (c == d)) [
      | inl same ↦
          let k : c ≡ d = ground arith in
          let b : (s.threads c).state ≡ thread_blocked = rw k (u d e) in absurd (omega arith)
      | inr other ↦ other
    ]

pub first_other : (s : Scheduler) (c i : ℕ) (q : List ℕ) → Runs s c (i ∷ q) → i ≢ c
first_other s c i q r e = (Runs-Absent s c (i ∷ q) r).0 (sym e)

yield-requeued :
    (s : Scheduler) (c i : ℕ) (q : List ℕ)
    → Runs s c (i ∷ q)
    → Undriven s
    → yield s ≡ switched (requeued s c i) c i
yield-requeued s c i q r u =
    yield-taken s c i q r
    ∙ give_way-requeued s c i (first_other s c i q r) r.running r.unqueued r.core r.current
        (Undriven-is_slot s c u r.running) r.ring.few

-- When a thread that is no driver yields and others wait, the one that has waited longest runs,
-- alone, and the thread that yielded waits behind all others.
pub yield-Runs :
    (s : Scheduler) (c i : ℕ) (q : List ℕ)
    → Runs s c (i ∷ q)
    → Undriven s
    → Runs (yield s) i (q ++ (c ∷ []))
yield-Runs s c i q r u =
    let ne = first_other s c i q r in
    let first = Waits-First s (s.queues 0) i q r.ring r.waits in
    subst (λ (x : Scheduler). Runs x i (q ++ (c ∷ []))) (sym (yield-requeued s c i q r u))
      (Leaves-Runs s (requeued s c i) c i (q ++ (c ∷ [])) ne first.ready r.only
        (requeued-Leaves s c i q ne r) (Absent-append i c q first.alone ne))

yield-Undriven :
    (s : Scheduler) (c i : ℕ) (q : List ℕ) → Runs s c (i ∷ q) → Undriven s → Undriven (yield s)
yield-Undriven s c i q r u =
    let first = Waits-First s (s.queues 0) i q r.ring r.waits in
    let (ready, running) : ((s.threads i).state ≡ thread_ready)
        × ((s.threads c).state ≡ thread_running) =
      (first.ready.state, r.running) in
    let m = requeued s c i in
    subst Undriven (sym (yield-requeued s c i q r u)) λ d e.
      let blocked = u d e in
      let not_next : i ≢ d =
        λ k. absurd (let b : (s.threads i).state ≡ thread_blocked = rw k blocked in omega arith) in
      let not_old : c ≢ d =
        λ k. absurd (let b : (s.threads c).state ≡ thread_blocked = rw k blocked in omega arith) in
      states-switched m c i d not_next
      ∙ ap (λ t. t.state) (others_requeued s c i (first_other s c i q r) d not_next not_old)
      ∙ blocked

abbrev pub yields : ℕ → Scheduler → Scheduler
yields zero s = s
yields (suc n) s = yields n (yield s)

-- A thread that waits runs after one yield more than there are threads before it in the queue, if no
-- driver of the scheduler runs; the threads before it have then run in their order, and wait in it.
pub yields-Runs :
    (s : Scheduler) (c i : ℕ) (before after : List ℕ)
    → Runs s c (before ++ (i ∷ after))
    → Undriven s
    → Runs (yields (suc (length before)) s) i (after ++ (c ∷ before))
yields-Runs s c i [] after r u = yield-Runs s c i after r u
yields-Runs s c i (j ∷ before) after r u =
    subst (Runs (yields (suc (length before)) (yield s)) i)
      (append_assoc after (c ∷ []) (j ∷ before))
      (yields-Runs (yield s) j i before (after ++ (c ∷ []))
        (subst (Runs (yield s) j) (append_assoc before (i ∷ after) (c ∷ []))
          (yield-Runs s c j (before ++ (i ∷ after)) r u))
        (yield-Undriven s c j (before ++ (i ∷ after)) r u))
