-- ===== src/Vfs.antt =====
-- src/services/vfs_service.c: the router of file requests, which are the boot archive's, mounted at
-- `/`.
pub mod Forward
use scdk.Base.{ℕ, zero, suc, Bool, true, not, ◌&&◌, ◌||◌, ◌==◌, if◌then◌else◌}
use scdk.Status.{Result, Status, ok, err, inval, noent, busy, notsup, checked, chained}
use scdk.Object.{obj_endpoint, boot_core}
use scdk.Cap
use scdk.Cap.{right_send}
use scdk.Kernel.{Kernel, Message}
use scdk.Endpoint
use scdk.Endpoint.{Handlers}
use scdk.Initrd.{slash}
use scdk.Message.{msg_open, msg_close, msg_read, msg_stat, msg_listdir, service_vfs}
use scdk.Tmpfs
use scdk.Tmpfs.{service_tmpfs, tmpfs_handler}

-- `path_under_root` of a request's path; both of its branches ask the same of it.
abbrev pub path_under_root : Kernel → Message → Bool
path_under_root k msg = not (msg.arg0 == 0) && k.memory msg.arg0 == slash

-- The number of the handler's function
abbrev pub vfs_handler : ℕ
vfs_handler = 2

-- The target that a forwarded message is given back with.
abbrev pub returned : Status × Message × Kernel → Status × Message × Kernel
returned (status, msg, k) = (status, record msg { target = service_vfs }, k)

-- `vfs_forward_to_tmpfs`
unfoldable pub forward : Handlers → Kernel → Message → Status × Message × Kernel
forward handlers k msg =
    if k.vfs_root == 0
    then (err inval, msg, k)
    else returned (Endpoint.call handlers k k.vfs_root (record msg { target = service_tmpfs }))

-- `vfs_handle_open`
unfoldable pub handle_open : Handlers → Kernel → Message → Status × Message × Kernel
unfolding forward
handle_open handlers k msg =
    if msg.arg0 == 0
    then (err inval, msg, k)
    else if not (path_under_root k msg)
    then (err noent, msg, k)
    else forward handlers k msg

-- `vfs_endpoint_handler`, which does not look at the endpoint or the context
unfoldable pub handler : Handlers → Message → Kernel → Status × Message × Kernel
unfolding handle_open
handler handlers msg k =
    if msg.type == msg_open
    then handle_open handlers k msg
    else if msg.type == msg_stat || msg.type == msg_listdir
    then (if msg.arg0 == 0 || not (path_under_root k msg)
        then (err noent, msg, k)
        else forward handlers k msg)
    else if msg.type == msg_read || msg.type == msg_close
    then forward handlers k msg
    else (err notsup, msg, k)

-- The handlers of the two file services, and others; `depth` bounds how deep their calls nest.
unfoldable pub file_handlers : Handlers → ℕ → Handlers
file_handlers others zero = others
file_handlers others (suc depth) = λ h cap msg context k.
    if h == tmpfs_handler
    then Tmpfs.handler msg k
    else if h == vfs_handler
    then handler (file_handlers others depth) msg k
    else others h cap msg context k

-- `scdk_vfs_service_init`; `out` says that `out_endpoint` is not null.
unfoldable pub service_init : Kernel → Bool → Result ℕ × Kernel
service_init k out =
    if not out
    then (err inval, k)
    else if k.vfs_started
    then (err busy, k)
    else checked (Endpoint.service k service_tmpfs true) k λ tmpfs.
      checked (Cap.check k.space tmpfs right_send obj_endpoint) k λ _.
        chained (Endpoint.create k boot_core vfs_handler 0 true) λ endpoint k1.
          chained (Endpoint.register k1 service_vfs endpoint)
            λ _ k2. (ok endpoint, record k2 { vfs_root = tmpfs; vfs_started = true })
