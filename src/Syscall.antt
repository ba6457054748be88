-- ===== src/Syscall.antt =====
-- src/core/syscall_dispatch.c: the calls of user programs, over the parts of the kernel that answer
-- them. Log output is left out. The handlers of services, and what other threads do while the
-- caller has yielded, are parameters.
pub mod Laws
pub mod Refused
use scdk.Base.{ℕ, ◌%◌, ◌^◌, Bool, true, false, not, Option, none, some, ◌==◌, if◌then◌else◌}
use scdk.Status.{Error, Result, Status, ok, err, notsup, status_word, checked}
use scdk.Kernel.{Kernel}
use scdk.Endpoint.{Handlers}
use scdk.UserSpace.{UserSpace}
use scdk.UserIpc.{Services, Answer, Fault, endpoint_call}
use scdk.UserGrant
use scdk.UserRing
use scdk.UserRing.Batch as Batch
use scdk.AddressSpace.{caps_of}
use scdk.Scheduler.{Scheduler, yield}
use scdk.Task.{UserTasks, current_task, fault_current}

-- The static variables of the file that say how the task's run goes.
pub record Flags : Type 0 where
  pub return_value : ℕ
  pub user_exited : Bool
  pub endpoint_call_passed : Bool
  pub user_faulted : Bool
  pub user_fault_status : Status

-- The registers that the entry code keeps in variables.
pub record Registers : Type 0 where
  pub kernel_stack_top : ℕ
  pub user_rsp : ℕ
  pub user_rip : ℕ
  pub user_rflags : ℕ
  pub arg0 : ℕ
  pub arg1 : ℕ
  pub arg2 : ℕ
  pub arg3 : ℕ
  pub user_return_rsp : ℕ
  pub user_return_rip : ℕ

-- `struct scdk_syscall_task_state`: the registers and the file's variables.
abbrev pub TaskState : Type 0
TaskState = Registers × Flags

-- The kernel, the caller's memory, the tasks with the scheduler, and the state above. The kernel
-- and the scheduler share one capability table, the kernel's. `ready` is what `scdk_syscall_ready`
-- answers.
pub record System : Type 0 where
  pub kernel : Kernel
  pub user : UserSpace
  pub tasks : UserTasks
  pub registers : Registers
  pub flags : Flags
  pub ready : Bool

-- The tasks and their scheduler, with the kernel's capability table.
abbrev pub tasks_of : System → UserTasks
tasks_of s =
    let m = s.tasks.memory in
    record (s.tasks) {
      memory = record m { scheduler = record (m.scheduler) { space = s.kernel.space } };
    }

-- What they leave, with the table.
abbrev pub with_tasks : System → UserTasks → System
with_tasks s t = record s { tasks = t; kernel = record (s.kernel) { space = caps_of t.memory } }

abbrev pub initial_flags : Flags
initial_flags = record {
  return_value = 0;
  user_exited = false;
  endpoint_call_passed = false;
  user_faulted = false;
  user_fault_status = ok tt;
}

-- `scdk_syscall_reset_task_state`
unfoldable pub reset_task_state : System → System
reset_task_state s = record s { flags = initial_flags }

-- `scdk_syscall_save_task_state` to a pointer that is not null
unfoldable pub save_task_state : System → TaskState
save_task_state s = (s.registers, s.flags)

-- `scdk_syscall_restore_task_state` of one
unfoldable pub restore_task_state : System → TaskState → System
restore_task_state s (registers, flags) = record s { registers = registers; flags = flags }

-- `scdk_syscall_mark_user_fault`
unfoldable pub mark_user_fault : System → Error → System
mark_user_fault s e = record s {
  flags = record (s.flags) {
    user_faulted = true;
    user_fault_status = err e;
    user_exited = true;
    return_value = status_word {A = Unit {0}} (err e);
  };
}

-- `mark_user_fault` of src/arch/x86_64/fault.c, which the handlers of faults share; the exit status
-- is an `int`.
unfoldable pub kill_user : System → Error → System
unfolding mark_user_fault
kill_user s e =
    mark_user_fault
      (with_tasks s (fault_current (tasks_of s) (status_word {A = Unit {0}} (err e) % 2 ^ 32)).1) e

abbrev pub returns : System → ℕ → System
returns s word = record s { flags = record (s.flags) { return_value = word } }

abbrev pub with_kernel : System → Kernel → System
with_kernel s k = record s { kernel = k }

abbrev pub passed : System → Status → System
passed s (ok _) = record s { flags = record (s.flags) { endpoint_call_passed = true } }
passed s (err e) = s

-- The end of a call whose status goes back to the user; 0 lets the program go on.
abbrev pub answers : Status → System → ℕ × System
answers status s = (0, returns s (status_word status))

-- The end of a call that gives back a value.
abbrev pub gives : Result ℕ → System → ℕ × System
gives (ok value) s = (0, returns s value)
gives (err e) s = (0, returns s (status_word {A = Unit {0}} (err e)))

-- `if (status == SCDK_OK) status = ...;` with the current task's token.
abbrev pub for_current {ℓ} : {A : Type ℓ} → System → (ℕ → Result A × Kernel) → Result A × Kernel
for_current s f = checked (current_task s.tasks true) s.kernel f

-- What `scdk_sys_endpoint_call` leaves: a fault that it reports kills the task.
abbrev pub after_fault : System → Option Fault → Status → System
after_fault s none status = s
after_fault s (some f) (ok _) = s
after_fault s (some f) (err e) = kill_user s e

abbrev pub after_call : System → Answer → System
after_call s a = after_fault (record s { kernel = a.kernel; user = a.user }) a.fault a.status

module _ (services : Services) (handlers : Handlers) (buffer : ℕ)
    (elsewhere : System → System) where
  -- SCDK_SYS_ENDPOINT_CALL
  unfoldable pub sys_endpoint_call : System → ℕ → ℕ → ℕ × System
  sys_endpoint_call s arg0 arg1 =
      let a = endpoint_call services buffer s.user s.kernel arg0 arg1 in
      let s' = after_call s a in
      if s'.flags.user_faulted then (1, s') else answers a.status (passed s' a.status)

  -- SCDK_SYS_YIELD: up to the switch, then the others, till the thread comes back
  unfoldable pub sys_yield : System → ℕ × System
  sys_yield s =
      let t = tasks_of s in
      let t' = record t { memory = record (t.memory) { scheduler = yield t.memory.scheduler } } in
      answers (ok tt) (elsewhere (with_tasks s t'))

  -- SCDK_SYS_GRANT_CREATE and SCDK_SYS_GRANT_REVOKE
  unfoldable pub sys_grant_create : System → ℕ → ℕ → ℕ → ℕ → ℕ × System
  sys_grant_create s arg0 arg1 arg2 arg3 =
      let (grant, k) =
        for_current s (λ task. UserGrant.create s.user s.kernel task arg0 arg1 arg2 arg3 true) in
      gives grant (with_kernel s k)

  unfoldable pub sys_grant_revoke : System → ℕ → ℕ × System
  sys_grant_revoke s arg0 =
      let (status, k) = UserGrant.revoke s.kernel arg0 in answers status (with_kernel s k)

  -- SCDK_SYS_RING_CREATE, SCDK_SYS_RING_BIND, SCDK_SYS_RING_SUBMIT and SCDK_SYS_RING_POLL; a count
  -- is cut to 32 bits
  unfoldable pub sys_ring_create : System → ℕ → ℕ × System
  sys_ring_create s arg0 =
      let (ring, k) = for_current s (λ task. UserRing.create s.kernel task (arg0 % 2 ^ 32) true) in
      gives ring (with_kernel s k)

  unfoldable pub sys_ring_bind : System → ℕ → ℕ → ℕ × System
  sys_ring_bind s arg0 arg1 =
      let (status, k) = for_current s (λ task. UserRing.bind s.kernel task arg0 arg1) in
      answers status (with_kernel s k)

  unfoldable pub sys_ring_submit : System → ℕ → ℕ → ℕ → ℕ × System
  sys_ring_submit s arg0 arg1 arg2 =
      let (status, k) =
        for_current s
          (λ task. Batch.submit handlers s.user s.kernel task arg0 arg1 (arg2 % 2 ^ 32)) in
      answers status (passed (with_kernel s k) status)

  unfoldable pub sys_ring_poll : System → ℕ → ℕ → ℕ → ℕ × System
  sys_ring_poll s arg0 arg1 arg2 =
      let (completed, (u, k)) =
        checked (current_task s.tasks true) (s.user, s.kernel)
          (λ task. Batch.poll s.user s.kernel task arg0 arg1 (arg2 % 2 ^ 32) true) in
      gives completed (record s { kernel = k; user = u })

  -- The switch, number by number; 1 leaves the program.
  unfoldable pub switch : System → ℕ → ℕ → ℕ → ℕ → ℕ → ℕ × System
  switch s number arg0 arg1 arg2 arg3 =
      if number == 0
      then answers (ok tt) s
      else if number == 1
      then sys_endpoint_call s arg0 arg1
      else if number == 2
      then sys_yield s
      else if number == 3
      then (1, record s { flags = record (s.flags) { user_exited = true; return_value = 0 } })
      else if number == 4
      then sys_grant_create s arg0 arg1 arg2 arg3
      else if number == 5
      then sys_grant_revoke s arg0
      else if number == 6
      then sys_ring_create s arg0
      else if number == 7
      then sys_ring_bind s arg0 arg1
      else if number == 8
      then sys_ring_submit s arg0 arg1 arg2
      else if number == 9
      then sys_ring_poll s arg0 arg1 arg2
      else (1, kill_user s notsup)

  -- `scdk_syscall_dispatch`
  unfoldable pub dispatch : System → ℕ → ℕ → ℕ → ℕ → ℕ → ℕ × System
  unfolding switch
  dispatch s number arg0 arg1 arg2 arg3 =
      if not s.ready
      then (1, returns s (status_word {A = Unit {0}} (err notsup)))
      else switch s number arg0 arg1 arg2 arg3
