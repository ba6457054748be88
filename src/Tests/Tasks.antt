-- ===== src/Tests/Tasks.antt =====
-- Address spaces and user tasks at concrete inputs.
use scdk.Base.{ℕ, ◌+◌, ◌-◌, ◌*◌, ◌^◌, ◌≡◌, ◌≢◌, refl, none, true, false, ◌==◌, arith}
use scdk.Status.{ok, err, busy}
use scdk.Object.{address}
use scdk.Object.Words.{make_id}
use scdk.Cap
use scdk.Cap.{CapSpace, empty_space, create_object}
use scdk.Vmm.{Vmm, map_page}
use scdk.Vmm as Vmm
use scdk.Vmm.Tree.{Shape}
use scdk.Vmm.Isolate.{map_page-Shape}
use scdk.AddressSpace.{Memory, obj_address_space, vmm_of, check_map, map, translate}
use scdk.AddressSpace.Pages.{translate-map}
use scdk.Scheduler.{thread_new}
use scdk.Task.{
  UserTasks, Program, task_new, task_running, task_dead, task_cleaned, exit, cleanup, enter,
  check_run, run_flat, task_slot_for_cap, state_of_task,
}
use scdk.Task.Life.{exit_once, run_flat_stops}
use scdk.Tests.PageTables.{empty_root, empty_root-Shape}
use scdk.Tests.Threads.{threads_with, no_heap}

-- The token of an address space, with all rights that one is made with.
abbrev aspace_token : CapSpace
aspace_token =
    (Cap.create (create_object empty_space obj_address_space 0 0 (address 4096)).1 (make_id 0 1) 75
      true).1

-- A kernel page is mapped.
abbrev kernel_root : Vmm
kernel_root = (map_page empty_root 131072 (2 ^ 64 - 2 ^ 47) 0x200000 1).1

kernel_maps : map_page empty_root 131072 (2 ^ 64 - 2 ^ 47) 0x200000 1 ≡ (ok tt, kernel_root)
unfolding map_page Vmm.check_map Vmm.validate_root Vmm.validate_address Vmm.leaf_table
    Vmm.next_table Vmm.allocate_table scdk.Pmm.alloc Vmm.finish_map
kernel_maps = refl

kernel_root-Shape : Shape kernel_root 131072
kernel_root-Shape =
    map_page-Shape empty_root 131072 (2 ^ 64 - 2 ^ 47) 0x200000 1 empty_root-Shape kernel_maps

abbrev one_space : Memory
one_space = record {
  scheduler = record (threads_with none) {
    heap = record no_heap { vmm = kernel_root };
    space = aspace_token;
  };
  aspaces = λ a. record { object_id = make_id 0 1; root_phys = 131072; owner_core = 0; flags = 0 };
}

abbrev user_mapped : Memory
user_mapped = (map one_space (make_id 0 1) 0x400000 0x100000 1).1

user_checks :
    check_map one_space (make_id 0 1) 0x400000 0x100000 1
    ≡ ok (record { object_id = make_id 0 1; root_phys = 131072; owner_core = 0; flags = 0 })
unfolding check_map scdk.AddressSpace.check_map_rights scdk.AddressSpace.lookup_aspace Cap.check
    Cap.lookup Cap.validate make_id scdk.Object.Words.id_index scdk.Object.Words.id_generation
    Cap.create scdk.Object.lookup create_object scdk.Object.create scdk.Base.find_slot
    scdk.Object.Words.next_generation scdk.AddressSpace.validate_user_page
user_checks = refl

user_maps : map one_space (make_id 0 1) 0x400000 0x100000 1 ≡ (ok tt, user_mapped)
unfolding map check_map scdk.AddressSpace.check_map_rights scdk.AddressSpace.lookup_aspace Cap.check
    Cap.lookup Cap.validate make_id scdk.Object.Words.id_index scdk.Object.Words.id_generation
    Cap.create scdk.Object.lookup create_object scdk.Object.create scdk.Base.find_slot
    scdk.Object.Words.next_generation scdk.AddressSpace.validate_user_page scdk.Pmm.alloc
    Vmm.allocate_table Vmm.check_map Vmm.finish_map Vmm.leaf_table map_page Vmm.next_table
    Vmm.validate_address Vmm.validate_root
user_maps = refl

translate-map_example : translate user_mapped (make_id 0 1) 0x400123 true ≡ ok (0x100123, 3)
translate-map_example =
    translate-map one_space (make_id 0 1) 0x400000 0x100000 1 0x400123 kernel_root-Shape
      (omega arith) user_checks user_maps refl

kernel_there : Vmm.translate kernel_root 131072 (2 ^ 64 - 2 ^ 47 + 5) true ≡ ok (0x200005, 1)
unfolding Vmm.translate Vmm.validate_root map_page Vmm.check_map Vmm.validate_address Vmm.leaf_table
    Vmm.next_table Vmm.allocate_table scdk.Pmm.alloc Vmm.finish_map
kernel_there = refl

-- Task 5 with its main thread 6.
abbrev pub one_task : ℕ → UserTasks
one_task state = record {
  memory = one_space;
  tasks = λ i. record {
    in_use = i == 0;
    task_cap = 5;
    task_id = 7;
    address_space_cap = 8;
    address_space_id = 9;
    main_thread_cap = 6;
    capability_table = 0;
    owner_core = 0;
    state = state;
    exit_status = 0;
  };
  threads = λ i. record {
    in_use = i == 0;
    thread_cap = 6;
    thread_id = 10;
    task_id = 7;
    user_stack_top = 0x70000000;
    instruction_pointer = 0x400000;
    owner_core = 0;
    state = thread_new;
  };
  current = 0;
}

abbrev exited : UserTasks
exited = (exit (one_task task_running) 5 42).1

exits : exit (one_task task_running) 5 42 ≡ (ok tt, exited)
unfolding exit task_slot_for_cap scdk.Base.find_slot
exits = refl

exit_once_example :
    let (status, s'') = cleanup exited 5 in
    (state_of_task exited 5 true ≡ ok task_dead)
    × (exit exited 5 1 ≡ (err busy, exited))
    × (status ≡ ok tt)
    × (state_of_task s'' 5 true ≡ ok task_cleaned)
    × (exit s'' 5 1 ≡ (err busy, s''))
    × (cleanup s'' 5 ≡ (err busy, s''))
exit_once_example = exit_once (one_task task_running) 5 42 1 exits

-- A program that does nothing.
abbrev idle : Program
idle aspace thread entry s = (ok tt, s)

run_passes : check_run (one_task task_new) 5 ≡ ok (0, 0)
unfolding check_run task_slot_for_cap scdk.Base.find_slot scdk.Task.thread_slot_for_cap
run_passes = refl

slot_kept : task_slot_for_cap (enter idle (one_task task_new) 5 0 0).1 5 ≡ ok 0
unfolding task_slot_for_cap scdk.Base.find_slot enter
slot_kept = refl

run_flat_stops_example :
    let s' = (run_flat idle (one_task task_new) 5 true).1 in
    ((s'.tasks 0).state ≢ task_running) × (s'.current ≡ 0)
run_flat_stops_example = run_flat_stops idle (one_task task_new) 5 0 0 run_passes slot_kept
