-- ===== src/Task/Life.antt =====
-- The states of a user task: it runs once, then is dead, then cleaned up, and stays so.
use scdk.Base.{
  ℕ, ◌≡◌, ◌≢◌, refl, sym, ◌∙◌, ap, subst, fun_ext, inl, inr, Bool, true, ◌&&◌, none, some,
  Bool-cases, ◌==◌, arith, find_slot,
}
use scdk.Status.{Result, Status, ok, err, noent, busy, Result-cases}
use scdk.Scheduler.{max_tasks}
use scdk.Task.{
  UserTasks, task_running, task_dead, task_cleaned, set_task, set_task_state, task_slot_for_cap,
  thread_slot_for_cap, kill_main, kill, exit, cleanup, abandon, enter, check_run, run_flat, Program,
  state_of_task,
}

-- Which slot a task's token names depends on the use and the tokens of the slots alone.
located : (ℕ → Bool) → (ℕ → ℕ) → ℕ → Result ℕ
located in_use tokens task = elim (find_slot (λ i. in_use i && tokens i == task) max_tasks 0) [
  | none ↦ err noent
  | some i ↦ ok i
]

located_slot :
    (s : UserTasks) (task : ℕ)
    → task_slot_for_cap s task ≡ located (λ i. (s.tasks i).in_use) (λ i. (s.tasks i).task_cap) task
unfolding task_slot_for_cap located
located_slot s task = refl

task_slot_same :
    (s t : UserTasks)
    → ((i : ℕ) → (t.tasks i).in_use ≡ (s.tasks i).in_use)
    → ((i : ℕ) → (t.tasks i).task_cap ≡ (s.tasks i).task_cap)
    → (task : ℕ) → task_slot_for_cap t task ≡ task_slot_for_cap s task
task_slot_same s t used tokens task =
    located_slot t task
    ∙ ap (λ x. located x (λ i. (t.tasks i).task_cap) task) (fun_ext used)
    ∙ ap (λ x. located (λ i. (s.tasks i).in_use) x task) (fun_ext tokens)
    ∙ sym (located_slot s task)

-- Marking the main thread leaves the tasks.
tasks-kill_main : (s : UserTasks) (i : ℕ) → (kill_main s i).tasks ≡ s.tasks
tasks-kill_main s i = elim (Result-cases (thread_slot_for_cap s (s.tasks i).main_thread_cap)) [
  | inl (j, e) ↦ rw (e, kill_main) refl
  | inr (x, e) ↦ rw (e, kill_main) refl
]

-- A state in which the tasks are those of `s`, but for the state and exit status of the one in slot
-- `i`.
record Moved (s t : UserTasks) (i state : ℕ) : Type 0 where
  used : (j : ℕ) → (t.tasks j).in_use ≡ (s.tasks j).in_use
  tokens : (j : ℕ) → (t.tasks j).task_cap ≡ (s.tasks j).task_cap
  state_at : (t.tasks i).state ≡ state

kill-Moved : (s : UserTasks) (i code : ℕ) → Moved s (kill s i code) i task_dead
kill-Moved s i code =
    let t = set_task s i (record (s.tasks i) { exit_status = code; state = task_dead }) in
    let same = tasks-kill_main t i in
    record {
      used = λ j. ap (λ f. (f j).in_use) same ∙ (ground arith);
      tokens = λ j. ap (λ f. (f j).task_cap) same ∙ (ground arith);
      state_at = ap (λ f. (f i).state) same ∙ (ground arith);
    }

cleaned-Moved :
    (s : UserTasks) (i : ℕ) → Moved s (set_task_state (kill_main s i) i task_cleaned) i task_cleaned
cleaned-Moved s i =
    let same = tasks-kill_main s i in
    record {
      used = λ j. (ground arith) ∙ ap (λ f. (f j).in_use) same;
      tokens = λ j. (ground arith) ∙ ap (λ f. (f j).task_cap) same;
      state_at = ground arith;
    }

Moved-slot :
    (s t : UserTasks) (i state task : ℕ)
    → Moved s t i state
    → task_slot_for_cap s task ≡ ok i
    → task_slot_for_cap t task ≡ ok i
Moved-slot s t i state task m h = task_slot_same s t m.used m.tokens task ∙ h

-- What the calls answer for a task in a given state.
state-found :
    (s : UserTasks) (task i : ℕ)
    → task_slot_for_cap s task ≡ ok i
    → state_of_task s task true ≡ ok (s.tasks i).state
unfolding state_of_task
state-found s task i h = rw h refl

exit-refused :
    (s : UserTasks) (task i code : ℕ)
    → task_slot_for_cap s task ≡ ok i
    → (s.tasks i).state ≢ task_running
    → exit s task code ≡ (err busy, s)
unfolding exit
exit-refused s task i code h ne = rw h (ground arith)

exit-taken :
    (s : UserTasks) (task i code : ℕ)
    → task_slot_for_cap s task ≡ ok i
    → (s.tasks i).state ≡ task_running
    → exit s task code ≡ (ok tt, kill s i code)
unfolding exit
exit-taken s task i code h runs = rw (h, runs) refl

cleanup-refused :
    (s : UserTasks) (task i : ℕ)
    → task_slot_for_cap s task ≡ ok i
    → (s.tasks i).state ≢ task_dead
    → cleanup s task ≡ (err busy, s)
unfolding cleanup
cleanup-refused s task i h ne = rw h (ground arith)

cleanup-taken :
    (s : UserTasks) (task i : ℕ)
    → task_slot_for_cap s task ≡ ok i
    → (s.tasks i).state ≡ task_dead
    → cleanup s task ≡ (ok tt, set_task_state (kill_main s i) i task_cleaned)
unfolding cleanup
cleanup-taken s task i h dead = rw (h, dead) refl

exit-eq-ok :
    (s : UserTasks) (task code : ℕ) {s' : UserTasks}
    → exit s task code ≡ (ok tt, s')
    → (i : ℕ) × (task_slot_for_cap s task ≡ ok i) × (kill s i code ≡ s')
unfolding exit
exit-eq-ok s task code h = elim (Result-cases (task_slot_for_cap s task)) [
  | inr (e, bad) ↦ absurd (ground arith)
  | inl (i, found) ↦ elim (Bool-cases ((s.tasks i).state == task_running)) [
    | inr n ↦ absurd (ground arith)
    | inl runs ↦ (i, found, ap (λ r. r.1) (sym (exit-taken s task i code found (ground arith)) ∙ h))
  ]
]

-- A dead task is cleaned up once.
Cleaned : UserTasks → ℕ → ℕ → Status × UserTasks → Type 0
Cleaned s task again (status, c) =
    (status ≡ ok tt)
    × (state_of_task c task true ≡ ok task_cleaned)
    × (exit c task again ≡ (err busy, c))
    × (cleanup c task ≡ (err busy, c))

cleanup-Cleaned :
    (s : UserTasks) (task i again : ℕ)
    → task_slot_for_cap s task ≡ ok i
    → (s.tasks i).state ≡ task_dead
    → Cleaned s task again (cleanup s task)
unfolding Cleaned
cleanup-Cleaned s task i again found dead =
    let c = set_task_state (kill_main s i) i task_cleaned in
    let m = cleaned-Moved s i in
    let found' = Moved-slot s c i task_cleaned task m found in
    let at = m.state_at in
    subst (Cleaned s task again) (sym (cleanup-taken s task i found dead)) (
      refl,
      state-found c task i found' ∙ ap ok at,
      exit-refused c task i again found' (λ e. absurd (omega arith)),
      cleanup-refused c task i found' (λ e. absurd (omega arith)),
    )

-- A task that has exited is dead and cannot exit again; it can be cleaned up once, and then can
-- neither exit nor be cleaned up again.
pub exit_once :
    (s : UserTasks) (task code again : ℕ) {s' : UserTasks}
    → exit s task code ≡ (ok tt, s')
    → let (status, s'') = cleanup s' task in
      (state_of_task s' task true ≡ ok task_dead)
      × (exit s' task again ≡ (err busy, s'))
      × (status ≡ ok tt)
      × (state_of_task s'' task true ≡ ok task_cleaned)
      × (exit s'' task again ≡ (err busy, s''))
      × (cleanup s'' task ≡ (err busy, s''))
unfolding Cleaned
exit_once s task code again {s'} h =
    let (i, found, after) = exit-eq-ok s task code h in
    let m : Moved s s' i task_dead =
      subst (λ x. Moved s x i task_dead) after (kill-Moved s i code) in
    let found' = Moved-slot s s' i task_dead task m found in
    let at = m.state_at in
    let (cleaned, state, no_exit, no_cleanup) = cleanup-Cleaned s' task i again found' at in
    (
      state-found s' task i found' ∙ ap ok at,
      exit-refused s' task i again found' (λ e. absurd (omega arith)),
      cleaned,
      state,
      no_exit,
      no_cleanup,
    )

current-kill : (s : UserTasks) (i code : ℕ) → (kill s i code).current ≡ s.current
current-kill s i code =
    current-kill_main (set_task s i (record (s.tasks i) { exit_status = code; state = task_dead }))
      i
  where
    current-kill_main : (t : UserTasks) (k : ℕ) → (kill_main t k).current ≡ t.current
    current-kill_main t k =
        elim (Result-cases (thread_slot_for_cap t (t.tasks k).main_thread_cap)) [
          | inl (j, e) ↦ rw (e, kill_main) refl
          | inr (x, e) ↦ rw (e, kill_main) refl
        ]

Stopped : UserTasks → ℕ → UserTasks → Type 0
Stopped s i t = ((t.tasks i).state ≢ task_running) × (t.current ≡ s.current)

exit-Stopped :
    (s : UserTasks) (task i code : ℕ)
    → task_slot_for_cap s task ≡ ok i
    → Stopped s i (exit s task code).1
unfolding Stopped
exit-Stopped s task i code found = elim (Bool-cases ((s.tasks i).state == task_running)) [
  | inl e ↦
      let at = (kill-Moved s i code).state_at in
      subst (λ r. Stopped s i r.1) (sym (exit-taken s task i code found (ground arith)))
        (λ k. absurd (omega arith), current-kill s i code)
  | inr e ↦
      subst (λ r. Stopped s i r.1) (sym (exit-refused s task i code found (ground arith)))
        (ground arith, refl)
]

-- What `run_flat` does once the program has given the processor back.
leave : Status × UserTasks → ℕ → ℕ → ℕ → Status × UserTasks
leave r task i j = elim r.0 [ err e ↦ (err e, abandon r.1 i j) | ok _ ↦ exit r.1 task 0 ]

leave-Stopped :
    (r : Status × UserTasks) (task i j : ℕ)
    → task_slot_for_cap r.1 task ≡ ok i
    → Stopped r.1 i (leave r task i j).1
unfolding leave Stopped
leave-Stopped (err e, s) task i j found = (ground arith, refl)
leave-Stopped (ok _, s) task i j found = exit-Stopped s task i 0 found

run_flat-leave :
    (program : Program) (s : UserTasks) (task i j : ℕ)
    → check_run s task ≡ ok (i, j)
    → run_flat program s task true ≡ leave (enter program s task i j) task i j
unfolding run_flat leave
run_flat-leave program s task i j checks = rw checks refl

current-enter :
    (program : Program) (s : UserTasks) (task i j : ℕ)
    → (enter program s task i j).1.current ≡ s.current
unfolding enter
current-enter program s task i j = refl

-- However the program of a task ends that `run_flat` starts, the task runs no more afterwards, if the
-- program keeps the task's slot, and the current task is the one from before.
pub run_flat_stops :
    (program : Program) (s : UserTasks) (task i j : ℕ)
    → check_run s task ≡ ok (i, j)
    → task_slot_for_cap (enter program s task i j).1 task ≡ ok i
    → let s' = (run_flat program s task true).1 in
      ((s'.tasks i).state ≢ task_running) × (s'.current ≡ s.current)
unfolding Stopped
run_flat_stops program s task i j checks kept =
    let r = enter program s task i j in
    let stopped = leave-Stopped r task i j kept in
    subst
      (λ (x : Status × UserTasks). ((x.1.tasks i).state ≢ task_running) × (x.1.current ≡ s.current))
      (sym (run_flat-leave program s task i j checks))
      (stopped.0, stopped.1 ∙ current-enter program s task i j)
