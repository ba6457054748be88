-- ===== src/Tests/Threads.antt =====
-- The scheduler at a concrete input: thread 0 runs, threads 1 and 2 wait, and thread 3 is new.
use scdk.Base.{
  ℕ, suc, ◌+◌, ◌^◌, ◌≡◌, ◌≢◌, refl, Option, none, some, Bool, true, false, List, [], ◌∷◌, ◌==◌,
  ◌||◌, ltb, if◌then◌else◌, arith, length,
}
use scdk.Status.{ok}
use scdk.Object.{element, thread_table, obj_thread}
use scdk.Object.Words.{make_id}
use scdk.Cap
use scdk.Cap.{CapSpace, empty_space, create_object}
use scdk.Heap.{Heap}
use scdk.Scheduler.{
  Scheduler, Context, ThreadSlot, TaskSlot, Word, number, thread_new, thread_ready, thread_running,
  thread_dead, thread_slot_for_cap, yield, exit_thread,
}
use scdk.Scheduler.Threads.{check_start, thread_start}
use scdk.Scheduler.Queue.{Waits, nobody, first_is, Ready, Absent}
use scdk.Scheduler.Rounds.{Runs}
use scdk.Scheduler.Turns.{Undriven, yields, yield-Runs, yields-Runs}
use scdk.Scheduler.Leave.{exit_thread-Runs}
use scdk.Tests.PageTables.{empty_root}

-- One more thread object, and its token for reading and executing.
abbrev with_thread : CapSpace → ℕ → CapSpace
with_thread s i =
    (Cap.create (create_object s obj_thread 0 0 (element thread_table i)).1 (make_id i 1) 7 true).1

abbrev four_objects : CapSpace
four_objects = with_thread (with_thread (with_thread (with_thread empty_space 0) 1) 2) 3

abbrev zeros : Context
zeros = record { r15 = 0; r14 = 0; r13 = 0; r12 = 0; rbx = 0; rbp = 0; rsp = 0 }

abbrev state_at : ℕ → ℕ
state_at i = if i == 0 then thread_running else if ltb i 3 then thread_ready else thread_new

abbrev slot_at : ℕ → ThreadSlot
slot_at i = record {
  context = zeros;
  object_id = make_id i 1;
  cap = make_id i 1;
  task_cap = 0;
  task_id = 0;
  entry = 4096;
  arg = 0;
  kernel_stack = 8192;
  stack_top = 24576;
  owner_core = 0;
  state = state_at i;
  queued = i == 1 || i == 2;
}

abbrev no_task : TaskSlot
no_task = record { object_id = 0; cap = 0; owner_core = 0; address_space = 0; main_thread = 0 }

abbrev pub no_heap : Heap
no_heap = record {
  vmm = empty_root;
  block = λ b. record { magic = 0; size = 0; free = false; prev = 0; next = 0 };
  head = 0;
  tail = 0;
  commit_end = 0;
  initialized = false;
}

abbrev pub threads_with : Option ℕ → Scheduler
threads_with driver = record {
  heap = no_heap;
  space = four_objects;
  stacks = λ a. number 0;
  registers = zeros;
  tasks = λ i. no_task;
  threads = slot_at;
  queues = λ core. record { entries = λ i. make_id (i + 1) 1; head = 0; tail = 2; count = 2 };
  current_slot = some 0;
  driver_slot = driver;
  current_task = 0;
  current_thread = make_id 0 1;
  initialized = true;
}

abbrev four_threads : Scheduler
four_threads = threads_with none

-- Thread 0 drives the scheduler.
abbrev driven : Scheduler
driven = threads_with (some 0)

found_0 : (driver : Option ℕ) → thread_slot_for_cap (threads_with driver) (make_id 0 1) ≡ ok 0
unfolding thread_slot_for_cap Cap.check Cap.lookup Cap.validate make_id scdk.Object.Words.id_index
    scdk.Object.Words.id_generation Cap.create scdk.Object.lookup create_object scdk.Object.create
    scdk.Base.find_slot scdk.Object.Words.next_generation
found_0 driver = refl

found_1 : (driver : Option ℕ) → thread_slot_for_cap (threads_with driver) (make_id 1 1) ≡ ok 1
unfolding thread_slot_for_cap Cap.check Cap.lookup Cap.validate make_id scdk.Object.Words.id_index
    scdk.Object.Words.id_generation Cap.create scdk.Object.lookup create_object scdk.Object.create
    scdk.Base.find_slot scdk.Object.Words.next_generation
found_1 driver = refl

found_2 : (driver : Option ℕ) → thread_slot_for_cap (threads_with driver) (make_id 2 1) ≡ ok 2
unfolding thread_slot_for_cap Cap.check Cap.lookup Cap.validate make_id scdk.Object.Words.id_index
    scdk.Object.Words.id_generation Cap.create scdk.Object.lookup create_object scdk.Object.create
    scdk.Base.find_slot scdk.Object.Words.next_generation
found_2 driver = refl

found_1-Ready : (driver : Option ℕ) → Ready (threads_with driver) (make_id 1 1) 1
found_1-Ready driver = record { slot = (found_1 driver); state = refl; named = refl; core = refl }

found_2-Ready : (driver : Option ℕ) → Ready (threads_with driver) (make_id 2 1) 2
found_2-Ready driver = record { slot = (found_2 driver); state = refl; named = refl; core = refl }

waiting :
    (driver : Option ℕ) → Waits (threads_with driver) (make_id 1 1 ∷ make_id 2 1 ∷ []) (1 ∷ 2 ∷ [])
waiting driver =
    first_is (found_1-Ready driver) (omega arith, tt) (first_is (found_2-Ready driver) tt nobody)

one_runs : (j : ℕ) → state_at j ≡ thread_running → j ≡ 0
one_runs j h = ground arith

threads_with-Runs : (driver : Option ℕ) → Runs (threads_with driver) 0 (1 ∷ 2 ∷ [])
threads_with-Runs driver = record {
  on = refl;
  current = refl;
  running = refl;
  unqueued = refl;
  core = refl;
  own = (found_0 driver);
  only = one_runs;
  ring = record { head_small = omega arith; few = omega arith; end = refl };
  waits = (waiting driver);
}

four_threads-Undriven : Undriven four_threads
four_threads-Undriven d e = absurd (ground arith)

yield-Runs_example : Runs (yield four_threads) 1 (2 ∷ 0 ∷ [])
yield-Runs_example =
    yield-Runs four_threads 0 1 (2 ∷ []) (threads_with-Runs none) four_threads-Undriven

yields-Runs_example : Runs (yields (suc (length {A = ℕ} (1 ∷ []))) four_threads) 2 (0 ∷ 1 ∷ [])
yields-Runs_example =
    yields-Runs four_threads 0 2 (1 ∷ []) [] (threads_with-Runs none) four_threads-Undriven

exit_thread-Runs_example :
    Runs (exit_thread four_threads) 1 (2 ∷ [])
    × (((exit_thread four_threads).threads 0).state ≡ thread_dead)
    × Absent 0 (2 ∷ [])
exit_thread-Runs_example = exit_thread-Runs four_threads 0 1 (2 ∷ []) (threads_with-Runs none)

start_passes : check_start four_threads (make_id 3 1) ≡ ok 3
unfolding check_start Cap.check Cap.lookup Cap.validate make_id scdk.Object.Words.id_index
    scdk.Object.Words.id_generation Cap.create scdk.Object.lookup create_object scdk.Object.create
    scdk.Base.find_slot scdk.Object.Words.next_generation thread_slot_for_cap
start_passes = refl

abbrev started : Scheduler
started = (thread_start four_threads (make_id 3 1)).1

starts : thread_start four_threads (make_id 3 1) ≡ (ok tt, started)
unfolding thread_start Cap.check Cap.lookup Cap.validate make_id scdk.Object.Words.id_index
    scdk.Object.Words.id_generation Cap.create scdk.Object.lookup create_object scdk.Object.create
    scdk.Base.find_slot scdk.Object.Words.next_generation thread_slot_for_cap
    scdk.Scheduler.enqueue_thread
starts = refl
