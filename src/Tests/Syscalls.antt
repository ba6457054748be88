-- ===== src/Tests/Syscalls.antt =====
-- System calls of a running task.
use scdk.Base.{ℕ, ◌≡◌, ◌⊎◌, refl, true, false, arith}
use scdk.Status.{ok, err, inval}
use scdk.Cap
use scdk.Cap.{right_send}
use scdk.Object.{obj_endpoint}
use scdk.Syscall.{System, dispatch, initial_flags, tasks_of}
use scdk.Syscall.Laws.{Ends, dispatch-Ends}
use scdk.Syscall.Refused.{dispatch_refused}
use scdk.Task.{task_running, task_dead, task_slot_for_cap}
use scdk.Tests.Calls.{echo, with_endpoint}
use scdk.Tests.Messages.{open_space, echoes}
use scdk.Tests.Tasks.{one_task}

abbrev running : System
running = record {
  kernel = with_endpoint;
  user = open_space;
  tasks = record (one_task task_running) { current = 5 };
  registers = record {
    kernel_stack_top = 0;
    user_rsp = 0;
    user_rip = 0;
    user_rflags = 0;
    arg0 = 0;
    arg1 = 0;
    arg2 = 0;
    arg3 = 0;
    user_return_rsp = 0;
    user_return_rip = 0;
  };
  flags = initial_flags;
  ready = true;
}

-- A message to the endpoint.
dispatch-Ends_example : Ends (dispatch echoes echo 4096 (λ s. s) running 1 4294967296 1048576 0 0)
dispatch-Ends_example =
    dispatch-Ends echoes echo 4096 (λ s. s) running 1 4294967296 1048576 0 0 refl
      (record { stays = refl; sound = refl }) (λ t. refl)

task_found : task_slot_for_cap (tasks_of running) 5 ≡ ok 0
unfolding task_slot_for_cap scdk.Base.find_slot
task_found = refl

no_token : Cap.check with_endpoint.space 0 right_send obj_endpoint ≡ err inval
unfolding Cap.check Cap.lookup Cap.validate
no_token = refl

dispatch_refused_example :
    let (code, s') = dispatch echoes echo 4096 (λ s. s) running 1 0 1048576 0 0 in
    (code ≡ 1)
    × ((s'.tasks.tasks 0).state ≡ task_dead)
    × (s'.kernel ≡ with_endpoint)
    × (s'.user ≡ open_space)
dispatch_refused_example =
    dispatch_refused echoes echo 4096 (λ s. s) running 0 1048576 0 0 0 refl (omega arith) task_found
      no_token
