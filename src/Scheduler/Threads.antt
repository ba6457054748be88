-- ===== src/Scheduler/Threads.antt =====
-- src/core/scheduler.c: how tasks and threads are made and started, and what is reported of them.
use scdk.Base.{
  ℕ, ◌+◌, ◌-◌, ◌*◌, ◌/◌, ◌%◌, ◌^◌, bit_or, Bool, true, false, not, ◌||◌, none, some, leb, ◌==◌,
  if◌then◌else◌, update, find_slot,
}
use scdk.Status.{
  Result, Status, ok, err, inval, nomem, noent, busy, notsup, guard, checked, chained, ◌>>=◌, ◌>>◌,
}
use scdk.Object.{element, task_table, thread_table, max_cores, boot_core, obj_task, obj_thread}
use scdk.Cap
use scdk.Cap.{
  CapSpace, CapEntry, right_read, right_write, right_exec, right_bind, create_object, new_object,
}
use scdk.Heap.{kalloc, kfree}
use scdk.Scheduler.{
  Scheduler, TaskSlot, trampoline, number, max_tasks, max_threads, kernel_stack_size, thread_new,
  thread_ready, thread_running, set_thread, set_state, task_slot_for_cap, thread_slot_for_cap,
  enqueue_thread,
}

abbrev pub set_task : Scheduler → ℕ → TaskSlot → Scheduler
set_task s i t = record s { tasks = update s.tasks i t }

-- The body of the loop of `scdk_task_create` at a free slot.
pub occupy_task : Scheduler → ℕ → ℕ → ℕ → Result ℕ × Scheduler
unfolding new_object
occupy_task s i core address_space =
    let slot : ℕ → TaskSlot = λ id. record {
      object_id = id;
      cap = 0;
      owner_core = core;
      address_space = address_space;
      main_thread = 0;
    } in
    let put = λ (id : ℕ) (space : CapSpace). set_task (record s { space = space }) i (slot id) in
    chained
      (new_object (λ space. record s { space = space }) put (λ id. put 0) s.space obj_task core
        (element task_table i) (bit_or (bit_or right_read right_write) right_bind))
      λ cap s'. (ok cap, set_task s' i (record (s'.tasks i) { cap = cap }))

-- `scdk_task_create`; `out` says that `out_task` is not null.
unfoldable pub task_create : Scheduler → ℕ → ℕ → Bool → Result ℕ × Scheduler
unfolding occupy_task
task_create s core address_space out =
    if not out || leb max_cores core
    then (err inval, s)
    else elim (find_slot (λ i. (s.tasks i).object_id == 0) max_tasks 0) [
      | none ↦ (err nomem, s)
      | some i ↦ occupy_task s i core address_space
    ]

-- `make_kernel_thread_context`
unfoldable pub make_context : Scheduler → ℕ → Scheduler
make_context s i =
    let top = ((s.threads i).kernel_stack + kernel_stack_size) % 2 ^ 64 in
    let sp = (top / 16 * 16 + 2 ^ 64 - 16) % 2 ^ 64 in
    set_thread
      (record s { stacks = update (update s.stacks sp trampoline) ((sp + 8) % 2 ^ 64) (number 0) })
      i
      (record (s.threads i) {
        context = record { r15 = 0; r14 = 0; r13 = 0; r12 = 0; rbx = 0; rbp = 0; rsp = sp };
        stack_top = top;
      })

-- The stack of a new thread, none for the thread without an entry. `false` says that there was no
-- memory.
unfoldable pub add_stack : Scheduler → ℕ → Bool × Scheduler
unfolding make_context
add_stack s i =
    if (s.threads i).entry == 0
    then (true, s)
    else let (stack, heap) = kalloc s.heap kernel_stack_size in
      let s' =
        set_thread (record s { heap = heap }) i (record (s.threads i) { kernel_stack = stack }) in
      if stack == 0 then (false, s') else (true, make_context s' i)

-- The writes that `scdk_thread_create` makes before the stack: a thread of the task in slot `j`.
abbrev pub fill_thread : Scheduler → ℕ → ℕ → ℕ → CapEntry → ℕ → ℕ → ℕ → Scheduler
fill_thread s i j task task_entry id entry arg = set_thread s i (record (s.threads i) {
  object_id = id;
  cap = 0;
  task_cap = task;
  task_id = task_entry.object_id;
  entry = entry;
  arg = arg;
  kernel_stack = 0;
  stack_top = 0;
  owner_core = (s.tasks j).owner_core;
  state = thread_new;
  queued = false;
})

abbrev pub forget_thread : Scheduler → ℕ → Scheduler
forget_thread s i = set_thread s i (record (s.threads i) { object_id = 0 })

-- The token of a new thread, which becomes its task's main thread if that has none.
unfoldable pub finish_thread : Scheduler → ℕ → ℕ → ℕ → Result ℕ × Scheduler
finish_thread s i j id =
    let (r, space) =
      Cap.create s.space id (bit_or (bit_or right_read right_write) right_exec) true in
    let s' = record s { space = space } in
    elim r [
      | err e ↦
          (err e, forget_thread (record s' { heap = kfree s.heap (s.threads i).kernel_stack }) i)
      | ok cap ↦
          let s'' = set_thread s' i (record (s.threads i) { cap = cap }) in
          (
            ok cap,
            if (s.tasks j).main_thread == 0
                then set_task s'' j (record (s.tasks j) { main_thread = cap })
                else s'',
          )
    ]

-- The body of the loop of `scdk_thread_create` at a free slot.
unfoldable pub occupy_thread : Scheduler → ℕ → ℕ → ℕ → CapEntry → ℕ → ℕ → Result ℕ × Scheduler
unfolding add_stack finish_thread
occupy_thread s i j task task_entry entry arg =
    let (r, space) =
      create_object s.space obj_thread (s.tasks j).owner_core 0 (element thread_table i) in
    let s' = record s { space = space } in
    elim r [
      | err e ↦ (err e, s')
      | ok id ↦
          let (fits, s'') = add_stack (fill_thread s' i j task task_entry id entry arg) i in
          elim fits [ false ↦ (err nomem, forget_thread s'' i) | true ↦ finish_thread s'' i j id ]
    ]

-- The checks of `scdk_thread_create`: the task's entry and its slot. `out` says that `out_thread` is
-- not null.
unfoldable pub find_task : Scheduler → ℕ → Bool → Result (CapEntry × ℕ)
find_task s task out = do
  guard out inval
  entry ← Cap.check s.space task right_bind obj_task
  slot ← task_slot_for_cap s task
  ok (entry, slot)

-- `scdk_thread_create`
unfoldable pub thread_create : Scheduler → ℕ → ℕ → ℕ → Bool → Result ℕ × Scheduler
unfolding occupy_thread
thread_create s task entry arg out = checked (find_task s task out) s λ (task_entry, j).
    elim (find_slot (λ i. (s.threads i).object_id == 0) max_threads 0) [
      | none ↦ (err nomem, s)
      | some i ↦ occupy_thread s i j task task_entry entry arg
    ]

-- The checks of `scdk_thread_start`: the thread's slot.
unfoldable pub check_start : Scheduler → ℕ → Result ℕ
check_start s thread = do
  entry ← Cap.check s.space thread right_exec obj_thread
  i ← thread_slot_for_cap s thread
  guard (not ((s.threads i).entry == 0 || (s.threads i).kernel_stack == 0)) inval
  guard ((s.threads i).state == thread_new) busy
  ok i

-- `scdk_thread_start`
unfoldable pub thread_start : Scheduler → ℕ → Status × Scheduler
unfolding check_start
thread_start s thread = checked (check_start s thread) s λ i.
    let (status, s') = enqueue_thread (set_state s i thread_ready) i in
    elim status [ err e ↦ (err e, set_state s' i thread_new) | ok _ ↦ (ok tt, s') ]

-- The end of `scdk_scheduler_init`; the two out pointers may be null.
unfoldable pub boot_with : Scheduler → ℕ → ℕ → Result (ℕ × ℕ) × Scheduler
boot_with s task thread = checked (thread_slot_for_cap s thread) s λ i. (
  ok (task, thread),
  record (set_state s i thread_running) {
    current_task = task;
    current_thread = thread;
    current_slot = some i;
    initialized = true;
  },
)

-- `scdk_scheduler_init`: the tokens of the boot task and thread.
unfoldable pub init : Scheduler → Result (ℕ × ℕ) × Scheduler
unfolding boot_with task_create thread_create
init s =
    if s.initialized
    then (err busy, s)
    else chained (task_create s boot_core 0 true)
        λ task s'. chained (thread_create s' task 0 0 true) λ thread s''. boot_with s'' task thread

-- `scdk_scheduler_current_task` and `scdk_scheduler_current_thread`; `out` says that the out
-- pointer is not null, here and below.
unfoldable pub report_task : Scheduler → Bool → Result ℕ
report_task s out = do
  guard out inval
  guard (not (not s.initialized || s.current_task == 0)) notsup
  ok s.current_task

unfoldable pub report_thread : Scheduler → Bool → Result ℕ
report_thread s out = do
  guard out inval
  guard (not (not s.initialized || s.current_thread == 0)) notsup
  ok s.current_thread

-- `scdk_task_main_thread`
unfoldable pub main_thread_of : Scheduler → ℕ → Bool → Result ℕ
main_thread_of s task out = do
  guard out inval
  i ← task_slot_for_cap s task
  guard (not ((s.tasks i).main_thread == 0)) noent
  ok (s.tasks i).main_thread

-- `scdk_thread_task_id`
unfoldable pub task_id_of : Scheduler → ℕ → Bool → Result ℕ
task_id_of s thread out = do
  guard out inval
  i ← thread_slot_for_cap s thread
  ok (s.threads i).task_id

-- `scdk_thread_state`
unfoldable pub state_of : Scheduler → ℕ → Bool → Result ℕ
state_of s thread out = do guard out inval; i ← thread_slot_for_cap s thread; ok (s.threads i).state
