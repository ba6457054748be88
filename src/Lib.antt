-- ===== src/Lib.antt =====
-- SCDK is a small capability kernel for x86-64. This library models its core in C: kernel objects, the
-- capabilities that name them, and what is reached through capabilities. The other parts call these.
--
-- The parts, and the files that model them:
--
-- - src/include/scdk/status.h: Status. A function that returns a status and writes a value through
--   an out pointer returns `ok value` or `err error`; one that returns a status alone, `ok tt`.
-- - src/core/object.c: Object, with the words of ids in Object/Words and its laws in Object/Laws.
--   `scdk_object_create` is `create`, `scdk_object_lookup` is `lookup`.
-- - src/core/capability.c and src/core/revoke.c: Cap. `CapSpace` is the capability table, its
--   generations and the object table. `scdk_cap_create`, `_lookup`, `_check` and `_revoke` have the
--   names without the prefix. Cap/Preserve has the invariant, Cap/Stale the histories of calls,
--   Cap/Growth the calls that only add, Cap/Rights what a token may do.
-- - Kernel: the records of the static tables that the other files keep, with the state at boot.
-- - src/ipc/message.c: Message, the constructors of message envelopes.
-- - src/core/endpoint.c: Endpoint. `scdk_endpoint_call` is `call`, and the handlers it calls through
--   function pointers are a parameter: a function of the handler's number, the token, the message, the
--   context and the kernel. `scdk_service_register` is `register`, `scdk_service_lookup` is `service`.
-- - src/core/ring.c: Ring. The data-plane calls are split into the lookup of the ring and a step on the
--   ring's record (`submit_to`, `consume_from`, `complete_to`, `poll_from`). Ring/Queue is the
--   specification, a bounded queue; Ring/Refine and Ring/Trace relate the two.
-- - src/core/grant.c: Grant, grants of kernel memory.
-- - src/ipc/user_ipc.c: UserSpace, the checks of user ranges and the copies. The address space is a
--   record of each page's flags, as `scdk_vmm_virt_to_phys` reports them, and of each byte.
-- - The same file's message system call: UserIpc, with what a message passes in UserIpc/Guard. The
--   handlers get the bytes of the kernel's buffer, and what they write to user memory is a parameter.
-- - src/core/user_grant.c: UserGrant, grants of user memory to an endpoint.
-- - src/core/user_ring.c: UserRing, and UserRing/Batch for its batches.
-- - src/mm/pmm.c: Pmm, the allocator of physical pages.
-- - src/mm/vmm.c: Vmm, the four-level page tables. Physical memory is seen as the words of each page, and
--   the active root is a field. Vmm/Tree has the invariant, that the tables under a root are a tree,
--   Vmm/Walk what a walk that makes tables does to it, Vmm/Map one mapping, Vmm/Isolate the laws.
-- - src/mm/heap.c: Heap, the kernel heap. A block's header is seen at each address.
-- - src/core/scheduler.c and src/arch/x86_64/context_switch.S: Scheduler, with the creation of tasks and
--   threads in Scheduler/Threads. A call of `yield` is modelled up to the switch of registers, after
--   which another thread's code goes on. Scheduler/Queue relates a run queue to the slots of the threads
--   that wait; Scheduler/Rounds, Turns, Start and Leave say who runs and who waits.
-- - src/mm/address_space.c: AddressSpace, kernel objects on the heap that hold a root of page tables.
-- - src/core/task.c: Task, user tasks over an address space and a thread; Task/Life has their states. The
--   program that a task runs is a parameter: a function of the address space, the thread, the start and
--   the kernel's state, which gives a status and the state it leaves.
-- - src/kernel/string.c: Bytes, the memory routines, with the laws of copies in Bytes/Move.
-- - src/mm/initrd.c: Initrd, the table of the boot archive's files. Initrd/Archive is the reader of the
--   archive (`scdk_initrd_init_from_limine` is `init_from_limine`), Initrd/Tree the directories that its
--   paths make up (`stat`, `listdir`). Initrd/Ends shows that the reader's loop ends, Initrd/Bounds and
--   Initrd/Stored what it remembers, Initrd/Octal what a size field says, Initrd/Agree that `find` and
--   `stat` see the same files.
-- - src/services/tmpfs_service.c: Tmpfs, the requests on files; Tmpfs/Open and Tmpfs/Read have their laws.
--   A request's pointers are into the kernel's own memory, the field `memory` of Kernel.
-- - src/services/vfs_service.c: Vfs, the router in front of it, which calls it through Endpoint.
-- - src/services/session_service.c: Session. src/services/tty_service.c: Tty.
-- - src/drivers/input/ps2_keyboard.c: Keyboard, with the tables of keys in Keyboard/Keys. Keyboard/Queue
--   relates the queue to the bounded queue of Ring/Queue, Keyboard/Modifiers and Keyboard/History the
--   modifier keys to the bytes that came, and Keyboard/Stamped and Keyboard/Trace
--   have the order of events.
-- - src/core/syscall_dispatch.c: Syscall. `dispatch` puts together UserIpc, UserGrant, UserRing, Scheduler
--   and Task over one capability table. Syscall/Laws says when a program goes on, and Syscall/Refused what
--   a refused call leaves.
-- - Tests: each theorem with hypotheses at a concrete input.
--
-- How the model follows the code:
--
-- - Integers are natural numbers, and each sum or difference that can wrap is written with its modulus.
--   A null check of an out pointer is a Boolean argument; other null pointers are 0 or `none`.
-- - A static array is a function of the index, and a search loop is `find_slot`, which tries the
--   array's places in order. A function that changes state returns the new state beside its result.
-- - `object->payload` is a pointer to an element of one of the static tables, null, or another address.
--   User grants and kernel grants have one object type, so each lookup can meet the other's slot; what
--   it then reads follows from the layout of the two structures on x86-64 (`read_as_grant` and
--   `read_as_user_grant`).
-- - Some loops run on fuel. The check of a user range has a round for each page that the range touches,
--   and the page collection one for each page and one for the end; the theorems on them show that these
--   are enough. The heap's search has a round for each header that fits in the heap, and one more, and no
--   theorem rests on it: that no chain has more blocks is not shown here. The
--   archive reader has a round for each block of the image and one more, which Initrd/Ends shows to be
--   enough. `strlen` runs on the bytes that the caller has room for; a longer string is refused by the
--   caller all the same. The handlers of the file services nest as deep as a number says, and the router
--   needs one level below it. The other loops recurse on
--   their count. The loop of `scdk_scheduler_run` gives way to other threads, so each of its tests is one
--   step, `continue_run`.
-- - Log output is left out, and so are the reports of faults, but for those of the message system call,
--   which are a part of its answer, and which kill the task in Syscall.
-- - A C string is the list of its characters before the end mark.
--
-- Not modelled: the loader (src/core/loader.c) and the process service that starts programs with it,
-- since the program that a task runs is a parameter here; the console and device services
-- (src/services). The rest of the architecture's code (src/arch), the start-up code and log (src/kernel)
-- and the console back end are input and output, and src/core/selftest.c is test code.
pub mod Base
pub mod Status
pub mod Object
pub mod Cap
pub mod Kernel
pub mod Message
pub mod Endpoint
pub mod Ring
pub mod Grant
pub mod UserSpace
pub mod UserGrant
pub mod UserRing
pub mod Pmm
pub mod Vmm
pub mod Initrd
pub mod Keyboard
pub mod Bytes
pub mod UserIpc
pub mod Session
pub mod Syscall
pub mod Task
pub mod Tmpfs
pub mod Tty
pub mod Vfs
pub mod AddressSpace
pub mod Scheduler
pub mod Heap
pub mod Tests
