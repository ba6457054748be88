-- ===== src/Tests/Files.antt =====
-- The file services over a small archive.
use scdk.Base.{ℕ, ◌+◌, ◌^◌, ◌≡◌, refl, inr, true, ◌==◌, if◌then◌else◌, List, [], ◌∷◌, arith}
use scdk.Status.{Status, ok, err, noent, notsup, status_word}
use scdk.Bytes.Move.{copied}
use scdk.Initrd
use scdk.Kernel.{Kernel, Message, boot}
use scdk.Message as Messages
use scdk.Endpoint
use scdk.Endpoint.{Handlers}
use scdk.Tmpfs
use scdk.Tmpfs.{handle_open, handle_read, handle_close, path_from_message}
use scdk.Tmpfs.Read.{amount, read-handle_open, read-handle_close}
use scdk.Vfs
use scdk.Vfs.{file_handlers}
use scdk.Vfs.Forward.{Mounted, handler-Mounted}
use scdk.Tests.Archives.{tar, archive, file_a}

-- The archive is in memory, and the string `/a` at 64.
abbrev files : Kernel
files = record boot {
  archive = archive;
  memory = λ a. if a == 64 then 47 else if a == 65 then 97 else tar a;
}

abbrev open_a : Message
open_a = record (Messages.init 1 2 1) { arg0 = 64; arg1 = 2 }

abbrev reply : Message
reply = record open_a { arg0 = 2 ^ 32; arg1 = 3 }

abbrev with_a : Kernel
with_a = (handle_open files open_a).2

a_named : path_from_message files open_a ≡ ok (47 ∷ 97 ∷ [])
unfolding path_from_message scdk.Initrd.Archive.bounded_cstr
a_named = refl

a_found : Initrd.find archive (47 ∷ 97 ∷ []) true ≡ ok file_a
unfolding Initrd.find scdk.Base.find_slot
a_found = refl

a_opens : handle_open files open_a ≡ (ok tt, reply, with_a)
unfolding handle_open path_from_message Initrd.find scdk.Base.find_slot
    scdk.Initrd.Archive.bounded_cstr Tmpfs.open_file scdk.Cap.create_object scdk.Object.create
    scdk.Cap.create scdk.Object.lookup scdk.Object.Words.make_id scdk.Object.Words.next_generation
    scdk.Object.Words.id_index scdk.Object.Words.id_generation
a_opens = refl

-- Ten bytes from the file's second one on are asked for.
abbrev read_a : Message
read_a = record (Messages.init 1 2 3) { arg0 = 2 ^ 32; arg1 = 1; arg2 = 8192; arg3 = 10 }

read-handle_open_example :
    ((handle_read with_a read_a).0 ≡ ok tt)
    × ((handle_read with_a read_a).1.arg0 ≡ amount read_a file_a)
    × ((a : ℕ)
        → (handle_read with_a read_a).2.memory a
          ≡ copied files.memory 8192 4609 (amount read_a file_a) a)
read-handle_open_example =
    read-handle_open files open_a (47 ∷ 97 ∷ []) file_a read_a a_named a_found a_opens refl
      (omega arith) (omega arith) (omega arith) (inr (omega arith))

abbrev close_a : Message
close_a = record (Messages.init 1 2 2) { arg0 = 2 ^ 32 }

abbrev without_a : Kernel
without_a = (handle_close with_a close_a).2

a_closes : handle_close with_a close_a ≡ (ok tt, close_a, without_a)
unfolding handle_close Tmpfs.slot_for_cap scdk.Cap.check scdk.Cap.lookup scdk.Cap.validate
    handle_open path_from_message scdk.Bytes.strlen Initrd.find scdk.Base.find_slot
    scdk.Initrd.Archive.bounded_cstr Tmpfs.open_file scdk.Cap.create_object scdk.Object.create
    scdk.Cap.create scdk.Object.lookup scdk.Object.Words.make_id scdk.Object.Words.next_generation
    scdk.Object.Words.id_index scdk.Object.Words.id_generation scdk.Cap.new_object Messages.init
    scdk.Status.status_word scdk.Status.error_number
a_closes = refl

read-handle_close_example :
    (handle_read without_a read_a ≡ (err noent, read_a, without_a))
    × (handle_close without_a close_a ≡ (err noent, close_a, without_a))
read-handle_close_example = read-handle_close with_a close_a read_a close_a a_closes refl refl

-- The archive's service and the router are started.
abbrev mounted : Kernel
mounted = (Vfs.service_init (Tmpfs.service_init files true).1 true).1

abbrev nothing_else : Handlers
nothing_else = λ h cap msg context k. (err notsup, msg, k)

mounted_route : Mounted mounted
unfolding Vfs.service_init Tmpfs.service_init Endpoint.create Endpoint.register Endpoint.service
    scdk.Cap.check scdk.Cap.lookup scdk.Cap.validate scdk.Base.find_slot scdk.Cap.create_object
    scdk.Object.create scdk.Cap.create scdk.Object.lookup scdk.Object.Words.make_id
    scdk.Object.Words.next_generation scdk.Object.Words.id_index scdk.Object.Words.id_generation
    scdk.Cap.new_object Endpoint.resolve
mounted_route = record {
  nonzero = omega arith;
  entry = record { object_id = 2 ^ 32; generation = 1; object_type = 5; revoked = 0; rights = 80 };
  context = 0;
  leads = refl;
}

handler-Mounted_example :
    let (status, answer, k) = Tmpfs.handler (record open_a { target = 2 ^ 32 }) mounted in
    Vfs.handler (file_handlers nothing_else 1) open_a mounted
    ≡ (status, record answer { target = 3; status = status_word status }, k)
unfolding mounted_route Messages.init Vfs.service_init Tmpfs.service_init Endpoint.create
    Endpoint.register Endpoint.service scdk.Cap.check scdk.Cap.lookup scdk.Cap.validate
    scdk.Base.find_slot scdk.Cap.create_object scdk.Object.create scdk.Cap.create scdk.Object.lookup
    scdk.Object.Words.make_id scdk.Object.Words.next_generation scdk.Object.Words.id_index
    scdk.Object.Words.id_generation scdk.Cap.new_object
handler-Mounted_example = handler-Mounted nothing_else 0 mounted mounted_route open_a refl
