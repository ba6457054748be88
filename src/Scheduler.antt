-- ===== src/Scheduler.antt =====
-- src/core/scheduler.c, src/include/scdk/scheduler.h and src/arch/x86_64/context_switch.S: the table
-- of threads, the run queue of each core, and the switch from one thread to the next. What a thread
-- does between two calls, panics and log output are left out.
pub mod Threads
pub mod Queue
pub mod Rounds
pub mod Turns
pub mod Start
pub mod Leave
use scdk.Base.{
  ℕ, zero, suc, ◌+◌, ◌-◌, ◌*◌, ◌/◌, ◌%◌, ◌^◌, Bool, true, false, not, ◌&&◌, ◌||◌, Option, none,
  some, leb, ◌==◌, if◌then◌else◌, update,
}
use scdk.Status.{Result, Status, ok, err, inval, noent, busy, notsup, guard, ◌>>=◌, ◌>>◌}
use scdk.Object
use scdk.Object.{
  Pointer, element, StaticTable, task_table, thread_table, max_cores, obj_task, obj_thread,
}
use scdk.Cap
use scdk.Cap.{CapSpace, right_read}
use scdk.Heap.{Heap}

abbrev pub max_tasks : ℕ
max_tasks = 64

abbrev pub max_threads : ℕ
max_threads = 128

abbrev pub kernel_stack_size : ℕ
kernel_stack_size = 16384

-- `enum scdk_thread_state`. The field that holds one is a `uint32_t`.
abbrev pub thread_new : ℕ
thread_new = 1

abbrev pub thread_ready : ℕ
thread_ready = 2

abbrev pub thread_running : ℕ
thread_running = 3

abbrev pub thread_blocked : ℕ
thread_blocked = 4

abbrev pub thread_dead : ℕ
thread_dead = 5

-- `struct scdk_thread_context`: the registers that a switch saves.
pub record Context : Type 0 where
  pub r15 : ℕ
  pub r14 : ℕ
  pub r13 : ℕ
  pub r12 : ℕ
  pub rbx : ℕ
  pub rbp : ℕ
  pub rsp : ℕ

pub record TaskSlot : Type 0 where
  pub object_id : ℕ
  pub cap : ℕ
  pub owner_core : ℕ
  pub address_space : ℕ
  pub main_thread : ℕ

pub record ThreadSlot : Type 0 where
  pub context : Context
  pub object_id : ℕ
  pub cap : ℕ
  pub task_cap : ℕ
  pub task_id : ℕ
  pub entry : ℕ
  pub arg : ℕ
  pub kernel_stack : ℕ
  pub stack_top : ℕ
  pub owner_core : ℕ
  pub state : ℕ
  pub queued : Bool

pub record RunQueue : Type 0 where
  pub entries : ℕ → ℕ
  pub head : ℕ
  pub tail : ℕ
  pub count : ℕ

-- A word of a thread's stack: the address of `thread_trampoline`, or a number.
pub data Word : Type 0 where
  trampoline : Word
  number : ℕ → Word

-- The static variables of the file, what the calls below it change, the processor's registers and
-- the words of the stacks. A pointer to a thread's slot is its index.
pub record Scheduler : Type 0 where
  pub heap : Heap
  pub space : CapSpace
  pub stacks : ℕ → Word
  pub registers : Context
  pub tasks : ℕ → TaskSlot
  pub threads : ℕ → ThreadSlot
  pub queues : ℕ → RunQueue
  pub current_slot : Option ℕ
  pub driver_slot : Option ℕ
  pub current_task : ℕ
  pub current_thread : ℕ
  pub initialized : Bool

abbrev pub set_thread : Scheduler → ℕ → ThreadSlot → Scheduler
set_thread s i t = record s { threads = update s.threads i t }

abbrev pub set_state : Scheduler → ℕ → ℕ → Scheduler
set_state s i state = set_thread s i (record (s.threads i) { state = state })

abbrev pub set_queued : Scheduler → ℕ → Bool → Scheduler
set_queued s i queued = set_thread s i (record (s.threads i) { queued = queued })

abbrev pub set_queue : Scheduler → ℕ → RunQueue → Scheduler
set_queue s core q = record s { queues = update s.queues core q }

-- What `object->payload` points to. The scheduler alone makes objects of the two types, so the
-- pointer is never another.
abbrev pub task_at : Pointer → Result ℕ
task_at (element task_table i) = ok i
task_at _ = err noent

abbrev pub thread_at : Pointer → Result ℕ
thread_at (element thread_table i) = ok i
thread_at _ = err noent

-- `task_slot_for_cap`
unfoldable pub task_slot_for_cap : Scheduler → ℕ → Result ℕ
task_slot_for_cap s cap = do
  entry ← Cap.check s.space cap right_read obj_task
  object ← Object.lookup s.space.objects entry.object_id true
  slot ← task_at object.payload
  guard ((s.tasks slot).object_id == entry.object_id) noent
  ok slot

-- `thread_slot_for_cap`
unfoldable pub thread_slot_for_cap : Scheduler → ℕ → Result ℕ
thread_slot_for_cap s cap = do
  entry ← Cap.check s.space cap right_read obj_thread
  object ← Object.lookup s.space.objects entry.object_id true
  slot ← thread_at object.payload
  guard ((s.threads slot).object_id == entry.object_id) noent
  ok slot

-- `run_queue_empty`
abbrev pub run_queue_empty : Scheduler → ℕ → Bool
run_queue_empty s core = (s.queues core).count == 0

-- The writes of `enqueue_thread`.
abbrev pub append_thread : Scheduler → ℕ → Scheduler
append_thread s i =
    let core = (s.threads i).owner_core in
    let q = s.queues core in
    set_queued
      (set_queue s core (record {
        entries = update q.entries q.tail (s.threads i).cap;
        head = q.head;
        tail = (q.tail + 1) % max_threads;
        count = q.count + 1;
      }))
      i true

-- `enqueue_thread`
unfoldable pub enqueue_thread : Scheduler → ℕ → Status × Scheduler
enqueue_thread s i =
    if leb max_cores (s.threads i).owner_core
    then (err inval, s)
    else if (s.threads i).queued || not ((s.threads i).state == thread_ready)
    then (err busy, s)
    else if leb max_threads (s.queues (s.threads i).owner_core).count
    then (err busy, s)
    else (ok tt, append_thread s i)

-- The first two writes of the loop of `dequeue_thread`.
abbrev pub drop_first : Scheduler → ℕ → Scheduler
drop_first s core =
    let q = s.queues core in
    set_queue s core (record q { head = (q.head + 1) % max_threads; count = q.count - 1 })

-- The loop, with `left` entries to go.
unfoldable pub dequeue_from : ℕ → ℕ → Scheduler → Option ℕ × Scheduler
dequeue_from zero core s = (none, s)
dequeue_from (suc left) core s =
    let s' = drop_first s core in
    let q = s.queues core in
    elim (thread_slot_for_cap s' (q.entries q.head)) [
      | err e ↦ dequeue_from left core s'
      | ok i ↦ elim ((s'.threads i).state == thread_ready) [
        | true ↦ (some i, set_queued s' i false)
        | false ↦ dequeue_from left core (set_queued s' i false)
      ]
    ]

-- `dequeue_thread`
unfoldable pub dequeue_thread : Scheduler → ℕ → Option ℕ × Scheduler
unfolding dequeue_from
dequeue_thread s core = dequeue_from (s.queues core).count core s

-- `scdk_context_switch`: the registers are saved in the old thread's slot and loaded from the new's.
abbrev pub context_switch : Scheduler → ℕ → ℕ → Scheduler
context_switch s old new =
    let saved = set_thread s old (record (s.threads old) { context = s.registers }) in
    record saved { registers = (saved.threads new).context }

-- The writes of `switch_to_thread`, from the thread in slot `old` to another.
abbrev pub switched : Scheduler → ℕ → ℕ → Scheduler
switched s old next =
    let s' = set_state s next thread_running in
    context_switch
      (record s' {
        current_slot = some next;
        current_thread = (s'.threads next).cap;
        current_task = (s'.threads next).task_cap;
      })
      old next

-- `switch_to_thread`
unfoldable pub switch_to_thread : Scheduler → ℕ → Scheduler
switch_to_thread s next = elim s.current_slot [
  | none ↦ s
  | some old ↦ if next == old then s else switched s old next
]

abbrev pub is_slot : Option ℕ → ℕ → Bool
is_slot none i = false
is_slot (some j) i = i == j

-- The thread that `scdk_yield` gives way to: the one dequeued, or a driver that waits.
abbrev pub successor : Scheduler → ℕ → Option ℕ → Option ℕ
successor s old (some i) = some i
successor s old none = elim s.driver_slot [
  | none ↦ none
  | some d ↦ if not (old == d) && (s.threads d).state == thread_blocked then some d else none
]

-- The end of `scdk_yield`, once there is a thread to give way to.
unfoldable pub give_way : Scheduler → ℕ → ℕ → Scheduler
give_way s old next =
    if not ((s.threads old).state == thread_running)
    then switch_to_thread s next
    else if is_slot s.driver_slot old
    then switch_to_thread (set_state s old thread_blocked) next
    else let (status, s') = enqueue_thread (set_state s old thread_ready) old in
      elim status [ err e ↦ set_state s' old thread_running | ok _ ↦ switch_to_thread s' next ]

-- `scdk_yield` once the run queue has given a thread or none.
unfoldable pub pass_on : Scheduler → ℕ → Option ℕ → Scheduler
pass_on s old found = elim (successor s old found) [ none ↦ s | some next ↦ give_way s old next ]

-- `scdk_yield`, up to the switch; when the thread comes back it returns at once.
unfoldable pub yield : Scheduler → Scheduler
yield s = if not s.initialized then s else elim s.current_slot [
  | none ↦ s
  | some old ↦ let (found, s') = dequeue_thread s (s.threads old).owner_core in pass_on s' old found
]

-- The end of `thread_trampoline`, when the thread's function has returned.
unfoldable pub exit_thread : Scheduler → Scheduler
exit_thread s = elim s.current_slot [ none ↦ s | some i ↦ yield (set_state s i thread_dead) ]

-- `scdk_scheduler_run` up to its loop.
unfoldable pub start_run : Scheduler → Scheduler
start_run s =
    if not s.initialized
    then s
    else elim s.current_slot [ none ↦ s | some i ↦ record s { driver_slot = some i } ]

-- The loop's test and what follows it. `true` says that the driver gave way inside the loop, and
-- comes back to the test.
unfoldable pub continue_run : Scheduler → Bool × Scheduler
continue_run s = elim s.driver_slot [
  | none ↦ (false, s)
  | some d ↦
      if not (run_queue_empty s (s.threads d).owner_core)
      then (true, yield s)
      else let s' =
          if (s.threads d).state == thread_blocked then set_state s d thread_running else s in
        (false, record s' { driver_slot = none })
]

-- `scdk_scheduler_yield_stub`
unfoldable pub yield_stub : Scheduler → Status × Scheduler
yield_stub s =
    if not s.initialized || s.current_task == 0 || s.current_thread == 0
    then (err notsup, s)
    else (ok tt, yield s)
