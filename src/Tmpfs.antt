-- ===== src/Tmpfs.antt =====
-- src/services/tmpfs_service.c: the files of the boot archive, opened and read through messages.
pub mod Open
pub mod Read
use scdk.Base.{
  ℕ, zero, suc, ◌+◌, ◌-◌, ◌*◌, ◌/◌, ◌%◌, Bool, true, false, not, ◌||◌, Option, none, some, ltb, leb,
  ◌==◌, if◌then◌else◌, update, find_slot, List, [], ◌∷◌, ◌++◌, min,
}
use scdk.Status.{
  Result, Status, ok, err, inval, nomem, noent, bounds, busy, notsup, guard, checked, chained,
  ◌>>=◌, ◌>>◌,
}
use scdk.Bytes.{memcpy, memset, strlen}
use scdk.Initrd
use scdk.Initrd.{Entry, max_path}
use scdk.Initrd.Archive.{bounded_cstr}
use scdk.Initrd.Tree.{Dirent, Listing, Stat, stat, listdir, max_name}
use scdk.Object
use scdk.Object.{Object, Pointer, element, open_files, obj_file, boot_core}
use scdk.Cap
use scdk.Cap.{CapEntry, CapSpace, right_read, new_object}
use scdk.Kernel.{Kernel, Message, OpenFile}
use scdk.Endpoint
use scdk.Message.{msg_open, msg_close, msg_read, msg_stat, msg_listdir}

-- `SCDK_TMPFS_MAX_OPEN_FILES`
abbrev pub max_open_files : ℕ
max_open_files = 32

-- What `object->payload` of a file object points to. `tmpfs_handle_open` alone makes such objects,
-- so the pointer is never another.
abbrev pub file_at : Pointer → Option ℕ
file_at (element open_files i) = some i
file_at _ = none

-- The last test of `tmpfs_slot_for_cap`.
abbrev pub open_slot : Kernel → ℕ → Option ℕ → Result ℕ
open_slot k object_id none = err noent
open_slot k object_id (some i) =
    if not ((k.files i).object_id == object_id) || not (k.files i).is_open then err noent else ok i

-- `tmpfs_slot_for_cap`: the index of the file.
unfoldable pub slot_for_cap : Kernel → ℕ → Result ℕ
slot_for_cap k cap = do
  entry ← Cap.check k.space cap right_read obj_file
  object ← Object.lookup k.space.objects entry.object_id true
  open_slot k entry.object_id (file_at object.payload)

-- The length of a request's path, which `strlen` measures if the request does not say. A longer
-- string than the buffer has room for counts as `max_path`, which is refused all the same.
abbrev pub path_length : Kernel → Message → ℕ
path_length k msg =
    if msg.arg1 == 0
    then elim (strlen max_path k.memory msg.arg0 0) [ some n ↦ n | none ↦ max_path ]
    else msg.arg1

-- `tmpfs_path_from_message`: the string that the buffer then holds.
unfoldable pub path_from_message : Kernel → Message → Result (List ℕ)
path_from_message k msg =
    if msg.arg0 == 0
    then err inval
    else if path_length k msg == 0 || ltb (max_path - 1) (path_length k msg)
    then err bounds
    else ok (bounded_cstr k.memory msg.arg0 (path_length k msg))

-- `tmpfs_handle_open` from the object's creation on: the kernel as it is once the token is known.
unfoldable pub open_file : Kernel → ℕ → Entry → Result ℕ × (ℕ → Kernel)
unfolding new_object
open_file k i backing =
    new_object (λ s cap. record k { space = s })
      (λ id s cap. record k {
        space = s;
        files =
            update k.files i
              (record { object_id = id; cap = cap; backing = backing; is_open = true });
      })
      (λ id s cap. record k {
        space = s;
        files = update k.files i (record (k.files i) { object_id = 0 });
      })
      k.space obj_file boot_core (element open_files i) right_read

-- The end of `tmpfs_handle_open`.
abbrev pub opened : Message → Entry → Result ℕ × (ℕ → Kernel) → Status × Message × Kernel
opened msg backing (ok cap, k) = (ok tt, record msg { arg0 = cap; arg1 = backing.size }, k cap)
opened msg backing (err e, k) = (err e, msg, k 0)

-- `tmpfs_handle_open`
unfoldable pub handle_open : Kernel → Message → Status × Message × Kernel
handle_open k msg = elim (path_from_message k msg >>= λ path. Initrd.find k.archive path true) [
  | err e ↦ (err e, msg, k)
  | ok backing ↦ elim (find_slot (λ i. not (k.files i).is_open) max_open_files 0) [
    | none ↦ (err nomem, msg, k)
    | some i ↦ opened msg backing (open_file k i backing)
  ]
]

-- `tmpfs_handle_stat`
unfoldable pub handle_stat : Kernel → Message → Status × Message × Kernel
handle_stat k msg = elim (path_from_message k msg >>= λ path. stat k.archive path true) [
  | err e ↦ (err e, msg, k)
  | ok s ↦ (ok tt, record msg { arg0 = s.type; arg1 = s.size; arg2 = 0; arg3 = 0 }, k)
]

-- `sizeof(struct scdk_vfs_dirent)`
abbrev pub dirent_size : ℕ
dirent_size = 80

-- The bytes of a field, the lowest first.
abbrev pub field_bytes : ℕ → ℕ → List ℕ
field_bytes zero v = []
field_bytes (suc n) v = v % 256 ∷ field_bytes n (v / 256)

-- The bytes of a name's field, with zeros past its end.
abbrev pub name_bytes : ℕ → List ℕ → List ℕ
name_bytes zero s = []
name_bytes (suc n) [] = 0 ∷ name_bytes n []
name_bytes (suc n) (x ∷ s) = x ∷ name_bytes n s

abbrev pub dirent_bytes : Dirent → List ℕ
dirent_bytes d = name_bytes max_name d.name ++ (field_bytes 8 d.type ++ field_bytes 8 d.size)

abbrev pub put_bytes : (ℕ → ℕ) → ℕ → List ℕ → ℕ → ℕ
put_bytes mem at [] = mem
put_bytes mem at (b ∷ bs) = put_bytes (update mem at b) (at + 1) bs

-- The buffer that `scdk_initrd_listdir` clears and writes the listing's first `n` entries to.
unfoldable pub put_entries : ℕ → (ℕ → ℕ) → ℕ → Listing → ℕ → ℕ
put_entries zero mem at l = mem
put_entries (suc n) mem at l =
    put_bytes (put_entries n mem at l) (at + dirent_size * n) (dirent_bytes (l.entries n))

unfoldable pub put_listing : (ℕ → ℕ) → ℕ → ℕ → Option Listing → ℕ → ℕ
put_listing mem at capacity none = mem
put_listing mem at capacity (some l) =
    put_entries l.count (memset mem at 0 (dirent_size * capacity)) at l

-- `out_count` of a listing
abbrev pub count_of : Option Listing → ℕ
count_of none = 0
count_of (some l) = l.count

-- The end of `tmpfs_handle_listdir`.
abbrev pub listed : Kernel → Message → ℕ → Status × Option Listing → Status × Message × Kernel
listed k msg capacity (ok _, l) = (
  ok tt,
  record msg { arg0 = count_of l; arg1 = 0; arg2 = 0; arg3 = 0 },
  record k { memory = put_listing k.memory msg.arg2 capacity l },
)
listed k msg capacity (err e, l) =
    (err e, msg, record k { memory = put_listing k.memory msg.arg2 capacity l })

-- `tmpfs_handle_listdir`
unfoldable pub handle_listdir : Kernel → Message → Status × Message × Kernel
handle_listdir k msg =
    if msg.arg2 == 0 || ltb msg.arg3 dirent_size
    then (err inval, msg, k)
    else elim (path_from_message k msg) [
      | err e ↦ (err e, msg, k)
      | ok path ↦
          listed k msg (msg.arg3 / dirent_size)
            (listdir k.archive path (msg.arg3 / dirent_size) true)
    ]

-- `tmpfs_handle_read` of an open file
unfoldable pub read_file : Kernel → Message → Entry → Status × Message × Kernel
read_file k msg backing =
    if msg.arg3 == 0
    then (ok tt, record msg { arg0 = 0 }, k)
    else if ltb backing.size msg.arg1
    then (err bounds, msg, k)
    else let available = backing.size - msg.arg1 in
      let to_copy = if ltb msg.arg3 available then msg.arg3 else available in
      (
        ok tt,
        record msg { arg0 = to_copy },
        record k { memory = memcpy k.memory msg.arg2 (backing.start + msg.arg1) to_copy },
      )

-- `tmpfs_handle_read`
unfoldable pub handle_read : Kernel → Message → Status × Message × Kernel
handle_read k msg = elim (guard (not (msg.arg2 == 0)) inval >> slot_for_cap k msg.arg0) [
  | err e ↦ (err e, msg, k)
  | ok i ↦ read_file k msg (k.files i).backing
]

-- `tmpfs_handle_close`
unfoldable pub handle_close : Kernel → Message → Status × Message × Kernel
handle_close k msg = elim (slot_for_cap k msg.arg0) [
  | err e ↦ (err e, msg, k)
  | ok i ↦
      (ok tt, msg, record k { files = update k.files i (record (k.files i) { is_open = false }) })
]

-- `tmpfs_endpoint_handler`, which does not look at the endpoint or the context
unfoldable pub handler : Message → Kernel → Status × Message × Kernel
unfolding handle_open handle_stat handle_listdir handle_read handle_close
handler msg k =
    if msg.type == msg_open
    then handle_open k msg
    else if msg.type == msg_stat
    then handle_stat k msg
    else if msg.type == msg_listdir
    then handle_listdir k msg
    else if msg.type == msg_read
    then handle_read k msg
    else if msg.type == msg_close
    then handle_close k msg
    else (err notsup, msg, k)

-- The number of the handler's function, and `SCDK_SERVICE_TMPFS`.
abbrev pub tmpfs_handler : ℕ
tmpfs_handler = 1

abbrev pub service_tmpfs : ℕ
service_tmpfs = 2

-- `scdk_tmpfs_service_init`; `out` says that `out_endpoint` is not null.
unfoldable pub service_init : Kernel → Bool → Result ℕ × Kernel
service_init k out =
    if not out
    then (err inval, k)
    else if k.tmpfs_started
    then (err busy, k)
    else chained (Endpoint.create k boot_core tmpfs_handler 0 true) λ endpoint k1.
      chained (Endpoint.register k1 service_tmpfs endpoint)
        λ _ k2. (ok endpoint, record k2 { tmpfs_started = true })
