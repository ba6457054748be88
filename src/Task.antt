-- ===== src/Task.antt =====
-- src/core/task.c and src/include/scdk/task.h: user tasks, each with an address space and a main
-- thread, and the states they pass through. Log output is left out. What a program does while it
-- runs is a parameter: a function of its address space, its thread, where it starts, and the
-- kernel's state.
pub mod Life
use scdk.Base.{
  ℕ, Bool, true, false, not, ◌&&◌, ◌||◌, Option, none, some, ◌==◌, if◌then◌else◌, update, find_slot,
}
use scdk.Status.{
  Result, Status, ok, err, inval, nomem, noent, busy, guard, checked, chained, ◌>>=◌, ◌>>◌,
}
use scdk.Object.{obj_task, obj_thread, boot_core}
use scdk.Cap
use scdk.Cap.{right_read}
use scdk.Kernel.{Kernel}
use scdk.Endpoint
use scdk.Scheduler.{max_tasks, max_threads, thread_new, thread_running, thread_dead}
use scdk.Scheduler.Threads as Threads
use scdk.AddressSpace.{Memory, caps_of, obj_address_space}
use scdk.AddressSpace as AddressSpace

-- `enum scdk_task_state`. The field that holds one is a `uint32_t`.
abbrev pub task_new : ℕ
task_new = 1

abbrev pub task_running : ℕ
task_running = 2

abbrev pub task_dead : ℕ
task_dead = 3

abbrev pub task_cleaned : ℕ
task_cleaned = 4

-- `SCDK_USER_TEST_STACK_TOP`, `SCDK_USER_TEST_CODE_VIRT` and `SCDK_SERVICE_CONSOLE`
abbrev pub user_stack_top : ℕ
user_stack_top = 0x70000000

abbrev pub user_code_virt : ℕ
user_code_virt = 0x400000

abbrev pub service_console : ℕ
service_console = 1

pub record UserTask : Type 0 where
  pub in_use : Bool
  pub task_cap : ℕ
  pub task_id : ℕ
  pub address_space_cap : ℕ
  pub address_space_id : ℕ
  pub main_thread_cap : ℕ
  pub capability_table : ℕ
  pub owner_core : ℕ
  pub state : ℕ
  pub exit_status : ℕ

pub record UserThread : Type 0 where
  pub in_use : Bool
  pub thread_cap : ℕ
  pub thread_id : ℕ
  pub task_id : ℕ
  pub user_stack_top : ℕ
  pub instruction_pointer : ℕ
  pub owner_core : ℕ
  pub state : ℕ

-- The kernel below this part, and the three static variables of the file.
pub record UserTasks : Type 0 where
  pub memory : Memory
  pub tasks : ℕ → UserTask
  pub threads : ℕ → UserThread
  pub current : ℕ

abbrev pub set_task : UserTasks → ℕ → UserTask → UserTasks
set_task s i t = record s { tasks = update s.tasks i t }

abbrev pub set_thread : UserTasks → ℕ → UserThread → UserTasks
set_thread s i t = record s { threads = update s.threads i t }

abbrev pub set_task_state : UserTasks → ℕ → ℕ → UserTasks
set_task_state s i state = set_task s i (record (s.tasks i) { state = state })

abbrev pub set_thread_state : UserTasks → ℕ → ℕ → UserTasks
set_thread_state s i state = set_thread s i (record (s.threads i) { state = state })

-- `object_id_from_cap`
unfoldable pub object_id_from_cap : UserTasks → ℕ → ℕ → Result ℕ
object_id_from_cap s cap expected = do
  entry ← Cap.check (caps_of s.memory) cap right_read expected
  ok entry.object_id

-- `task_slot_for_cap` and `thread_slot_for_cap`
unfoldable pub task_slot_for_cap : UserTasks → ℕ → Result ℕ
task_slot_for_cap s task =
    elim (find_slot (λ i. (s.tasks i).in_use && (s.tasks i).task_cap == task) max_tasks 0) [
      | none ↦ err noent
      | some i ↦ ok i
    ]

unfoldable pub thread_slot_for_cap : UserTasks → ℕ → Result ℕ
thread_slot_for_cap s thread =
    elim (find_slot (λ i. (s.threads i).in_use && (s.threads i).thread_cap == thread) max_threads
      0) [ none ↦ err noent | some i ↦ ok i ]

-- The writes of `scdk_user_thread_create`: a main thread in slot `j` for the task in slot `i`.
abbrev pub fill_thread : UserTasks → ℕ → ℕ → ℕ → ℕ → UserTasks
fill_thread s i j thread thread_id =
    set_task
      (set_thread s j (record {
        in_use = true;
        thread_cap = thread;
        thread_id = thread_id;
        task_id = (s.tasks i).task_id;
        user_stack_top = user_stack_top;
        instruction_pointer = user_code_virt;
        owner_core = (s.tasks i).owner_core;
        state = thread_new;
      }))
      i (record (s.tasks i) { main_thread_cap = thread })

-- `scdk_user_thread_create` with the task's slot in hand.
unfoldable pub add_thread : UserTasks → ℕ → ℕ → Result ℕ × UserTasks
add_thread s task i = elim (find_slot (λ j. not (s.threads j).in_use) max_threads 0) [
  | none ↦ (err nomem, s)
  | some j ↦
      let (r, scheduler) = Threads.thread_create s.memory.scheduler task 0 0 true in
      chained (r, record s { memory = record (s.memory) { scheduler = scheduler } })
        λ thread s'.
          checked (object_id_from_cap s' thread obj_thread) s'
            λ thread_id. (ok thread, fill_thread s' i j thread thread_id)
]

-- `scdk_user_thread_create`; `out` says that `out_thread` is not null.
unfoldable pub thread_create : UserTasks → ℕ → Bool → Result ℕ × UserTasks
unfolding add_thread
thread_create s task out =
    if not out then (err inval, s) else checked (task_slot_for_cap s task) s (add_thread s task)

-- The steps of `scdk_user_task_create` before its slot is filled: the address space's token and id,
-- and the task's.
unfoldable pub make_parts : UserTasks → Result ((ℕ × ℕ) × ℕ × ℕ) × UserTasks
make_parts s =
    let (r, memory) = AddressSpace.create s.memory true in
    chained (r, record s { memory = memory })
      λ aspace s1. checked (object_id_from_cap s1 aspace obj_address_space) s1 λ aspace_id.
        let (t, scheduler) = Threads.task_create s1.memory.scheduler boot_core aspace_id true in
        chained (t, record s1 { memory = record (s1.memory) { scheduler = scheduler } })
          λ task s2.
            checked (object_id_from_cap s2 task obj_task) s2
              λ task_id. (ok ((aspace, aspace_id), task, task_id), s2)

-- `scdk_user_task_create`: the tokens of the task, its address space and its main thread. `out` says
-- that no out pointer is null.
unfoldable pub task_create : UserTasks → Bool → Result (ℕ × ℕ × ℕ) × UserTasks
unfolding make_parts
task_create s out =
    if not out then (err inval, s) else elim (find_slot (λ i. not (s.tasks i).in_use) max_tasks 0) [
      | none ↦ (err nomem, s)
      | some i ↦ chained (make_parts s) λ ((aspace, aspace_id), task, task_id) s'.
          let filled = set_task s' i (record {
            in_use = true;
            task_cap = task;
            task_id = task_id;
            address_space_cap = aspace;
            address_space_id = aspace_id;
            main_thread_cap = 0;
            capability_table = 0;
            owner_core = boot_core;
            state = task_new;
            exit_status = 0;
          }) in
          let (r, s'') = thread_create filled task true in
          elim r [
            | ok thread ↦ (ok (task, aspace, thread), s'')
            | err e ↦ (err e, set_task s'' i (record (s''.tasks i) { in_use = false }))
          ]
    ]

-- The main thread of a task is marked dead, if it has a slot.
abbrev pub kill_main : UserTasks → ℕ → UserTasks
kill_main s i = elim (thread_slot_for_cap s (s.tasks i).main_thread_cap) [
  | err e ↦ s
  | ok j ↦ set_thread_state s j thread_dead
]

-- The writes of `scdk_task_exit` and `scdk_task_fault_current`.
abbrev pub kill : UserTasks → ℕ → ℕ → UserTasks
kill s i code =
    kill_main (set_task s i (record (s.tasks i) { exit_status = code; state = task_dead })) i

-- `scdk_task_exit`
unfoldable pub exit : UserTasks → ℕ → ℕ → Status × UserTasks
exit s task code =
    checked (task_slot_for_cap s task) s
      λ i. if not ((s.tasks i).state == task_running) then (err busy, s) else (ok tt, kill s i code)

-- `scdk_task_fault_current`
unfoldable pub fault_current : UserTasks → ℕ → Status × UserTasks
fault_current s code =
    if s.current == 0
    then (err noent, s)
    else checked (task_slot_for_cap s s.current) s λ i. (ok tt, kill s i code)

-- `scdk_task_cleanup`
unfoldable pub cleanup : UserTasks → ℕ → Status × UserTasks
cleanup s task = checked (task_slot_for_cap s task) s λ i.
    if not ((s.tasks i).state == task_dead)
    then (err busy, s)
    else (ok tt, set_task_state (kill_main s i) i task_cleaned)

-- What a program does from its start until it gives the processor back.
abbrev pub Program : Type 0
Program = ℕ → ℕ → ℕ → UserTasks → Status × UserTasks

-- The checks that the three ways to run a task share: its slot and its main thread's.
unfoldable pub check_run : UserTasks → ℕ → Result (ℕ × ℕ)
check_run s task = do
  i ← task_slot_for_cap s task
  j ← thread_slot_for_cap s (s.tasks i).main_thread_cap
  guard (not (not ((s.tasks i).state == task_new) || not ((s.threads j).state == thread_new))) busy
  ok (i, j)

-- The steps that they share: both are marked running, and the program runs as the current task.
unfoldable pub enter : Program → UserTasks → ℕ → ℕ → ℕ → Status × UserTasks
enter program s task i j =
    let begun = set_thread_state (set_task_state s i task_running) j thread_running in
    let (status, s') =
      program (begun.tasks i).address_space_cap (begun.threads j).thread_cap
        (begun.threads j).instruction_pointer (record begun { current = task }) in
    (status, record s' { current = s.current })

-- The end of a run that failed.
abbrev pub abandon : UserTasks → ℕ → ℕ → UserTasks
abandon s i j = set_thread_state (set_task_state s i task_dead) j thread_dead

-- `scdk_user_task_run_builtin`
unfoldable pub run_builtin : Program → UserTasks → ℕ → Status × UserTasks
run_builtin program s task =
    checked (check_run s task) s λ (i, j). chained (enter program s task i j) λ _ s'. exit s' task 0

-- `scdk_user_task_run_flat`; `image` says that there is an image of some bytes.
unfoldable pub run_flat : Program → UserTasks → ℕ → Bool → Status × UserTasks
run_flat program s task image =
    if not image
    then (err inval, s)
    else checked (check_run s task) s λ (i, j).
      let (status, s') = enter program s task i j in
      elim status [ err e ↦ (err e, abandon s' i j) | ok _ ↦ exit s' task 0 ]

-- `scdk_user_task_run_fault_test`; `k` has the service table.
unfoldable pub run_fault_test : Program → Kernel → UserTasks → ℕ → Status × UserTasks
run_fault_test program k s task = checked (check_run s task) s λ (i, j).
    checked (Endpoint.service k service_console true) s λ _.
      let (status, s') = enter program s task i j in
      elim status [
        | err e ↦ (err e, abandon s' i j)
        | ok _ ↦ if not ((s'.tasks i).state == task_dead) then (err busy, s') else (ok tt, s')
      ]

-- `scdk_user_task_state`, `scdk_user_thread_state` and `scdk_user_task_current`; `out` says that the
-- out pointer is not null.
unfoldable pub state_of_task : UserTasks → ℕ → Bool → Result ℕ
state_of_task s task out = do guard out inval; i ← task_slot_for_cap s task; ok (s.tasks i).state

unfoldable pub state_of_thread : UserTasks → ℕ → Bool → Result ℕ
state_of_thread s thread out = do
  guard out inval
  j ← thread_slot_for_cap s thread
  ok (s.threads j).state

unfoldable pub current_task : UserTasks → Bool → Result ℕ
current_task s out = do guard out inval; guard (not (s.current == 0)) noent; ok s.current
