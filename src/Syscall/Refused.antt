-- ===== src/Syscall/Refused.antt =====
-- What a call that is refused leaves, and what a fault does to the task.
use scdk.Base.{
  ℕ, ◌^◌, ◌%◌, ◌≡◌, ◌≢◌, refl, ◌∙◌, ap, inl, inr, true, false, not, arith, ◌==◌, if◌then◌else◌,
  some, update_self,
}
use scdk.Status.{Error, Result, Status, ok, err, notsup, status_word, Result-cases}
use scdk.Object.{obj_endpoint}
use scdk.Cap
use scdk.Cap.{right_send}
use scdk.Endpoint.{Handlers}
use scdk.UserIpc.{Services, Answer, capability_failure, endpoint_call}
use scdk.AddressSpace.{caps_of}
use scdk.Scheduler.{thread_dead}
use scdk.Task.{
  UserTasks, fault_current, task_slot_for_cap, thread_slot_for_cap, task_dead, kill, set_task,
  set_thread_state, UserTask,
}
use scdk.Syscall.{
  System, dispatch, switch, kill_user, mark_user_fault, after_call, answers, passed, returns,
  tasks_of, sys_endpoint_call,
}

module _ (services : Services) (handlers : Handlers) (buffer : ℕ)
    (elsewhere : System → System) where
  dispatch_ready :
      (s : System) (number arg0 arg1 arg2 arg3 : ℕ)
      → s.ready ≡ true
      → dispatch services handlers buffer elsewhere s number arg0 arg1 arg2 arg3
        ≡ switch services handlers buffer elsewhere s number arg0 arg1 arg2 arg3
  unfolding dispatch
  dispatch_ready s number arg0 arg1 arg2 arg3 up =
      ap
        (λ b.
          if not b
          then (1, returns s (status_word {A = Unit {0}} (err notsup)))
          else switch services handlers buffer elsewhere s number arg0 arg1 arg2 arg3)
        up

  abbrev concluded : System → Answer → ℕ × System
  concluded s a =
      let s' = after_call s a in
      if s'.flags.user_faulted then (1, s') else answers a.status (passed s' a.status)

  sys_endpoint_call_refused :
      (s : System) (arg0 arg1 : ℕ) {e : Error}
      → Cap.check s.kernel.space arg0 right_send obj_endpoint ≡ err e
      → sys_endpoint_call services handlers buffer elsewhere s arg0 arg1 ≡ (1, kill_user s e)
  unfolding sys_endpoint_call endpoint_call kill_user mark_user_fault
  sys_endpoint_call_refused s arg0 arg1 {e} bad =
      let a : Answer = record {
        status = err e;
        fault = some capability_failure;
        user = s.user;
        kernel = s.kernel;
      } in
      let refused : endpoint_call services buffer s.user s.kernel arg0 arg1 ≡ a =
        rw (bad, endpoint_call) refl in
      ap (concluded s) refused

abbrev main_dead : UserTasks → Result ℕ → UserTasks
main_dead s (err e) = s
main_dead s (ok j) = set_thread_state s j thread_dead

kill-parts :
    (s : UserTasks) (i code : ℕ)
    → (((kill s i code).tasks i).state ≡ task_dead) × ((kill s i code).memory ≡ s.memory)
kill-parts s i code =
    let marked = set_task s i (record (s.tasks i) { exit_status = code; state = task_dead }) in
    let dead : (marked.tasks i).state ≡ task_dead =
      ap (λ (t : UserTask). t.state) (update_self s.tasks i _) in
    elim (Result-cases (thread_slot_for_cap marked (marked.tasks i).main_thread_cap)) [
      | inr (e, missing) ↦
          let same : kill s i code ≡ marked = ap (main_dead marked) missing in
          (
            ap (λ (t : UserTasks). (t.tasks i).state) same ∙ dead,
            ap (λ (t : UserTasks). t.memory) same,
          )
      | inl (j, found) ↦
          let same : kill s i code ≡ set_thread_state marked j thread_dead =
            ap (main_dead marked) found in
          (
            ap (λ (t : UserTasks). (t.tasks i).state) same ∙ dead,
            ap (λ (t : UserTasks). t.memory) same,
          )
    ]

-- The current task has a slot: a fault marks it dead, and the kernel and the user's memory stay.
kill_user-dead :
    (s : System) (e : Error) (i : ℕ)
    → s.tasks.current ≢ 0
    → task_slot_for_cap (tasks_of s) s.tasks.current ≡ ok i
    → (((kill_user s e).tasks.tasks i).state ≡ task_dead)
      × ((kill_user s e).kernel ≡ s.kernel)
      × ((kill_user s e).user ≡ s.user)
unfolding kill_user mark_user_fault fault_current thread_slot_for_cap
kill_user-dead s e i running found =
    let code = status_word {A = Unit {0}} (err e) % 2 ^ 32 in
    let go : fault_current (tasks_of s) code ≡ (ok tt, kill (tasks_of s) i code) =
      let some_task : (s.tasks.current == 0) ≡ false = ground arith in
      rw (some_task, fault_current) (rw found refl) in
    let (dead, kept) = kill-parts (tasks_of s) i code in
    (
      ap (λ (r : Status × UserTasks). (r.1.tasks i).state) go ∙ dead,
      ap (λ (r : Status × UserTasks). record (s.kernel) { space = caps_of r.1.memory }) go
          ∙ ap (λ m. record (s.kernel) { space = caps_of m }) kept,
      refl,
    )

-- With a token that does not hold SEND on an endpoint, a system call to send a message reaches no
-- handler: dispatch returns 1, the current task, if it has a slot, is dead, and the kernel and the
-- user's memory are as before.
pub dispatch_refused :
    (services : Services) (handlers : Handlers) (buffer : ℕ) (elsewhere : System → System)
    (s : System) (arg0 arg1 arg2 arg3 i : ℕ) {e : Error}
    → s.ready ≡ true
    → s.tasks.current ≢ 0
    → task_slot_for_cap (tasks_of s) s.tasks.current ≡ ok i
    → Cap.check s.kernel.space arg0 right_send obj_endpoint ≡ err e
    → let (code, s') = dispatch services handlers buffer elsewhere s 1 arg0 arg1 arg2 arg3 in
      (code ≡ 1)
      × ((s'.tasks.tasks i).state ≡ task_dead)
      × (s'.kernel ≡ s.kernel)
      × (s'.user ≡ s.user)
unfolding switch
dispatch_refused services handlers buffer elsewhere s arg0 arg1 arg2 arg3 i {e} up running found
      bad =
    let go : dispatch services handlers buffer elsewhere s 1 arg0 arg1 arg2 arg3
        ≡ (1, kill_user s e) =
      dispatch_ready services handlers buffer elsewhere s 1 arg0 arg1 arg2 arg3 up
      ∙ sys_endpoint_call_refused services handlers buffer elsewhere s arg0 arg1 bad in
    let (dead, kernel, user) = kill_user-dead s e i running found in
    (
      ap (λ r. r.0) go,
      ap (λ (r : ℕ × System). (r.1.tasks.tasks i).state) go ∙ dead,
      ap (λ (r : ℕ × System). r.1.kernel) go ∙ kernel,
      ap (λ (r : ℕ × System). r.1.user) go ∙ user,
    )
