-- ===== src/Session.antt =====
-- src/services/session_service.c: the lookup of services for programs.
pub mod Allowed
use scdk.Base.{ℕ, Bool, true, not, ◌||◌, ◌==◌, if◌then◌else◌}
use scdk.Status.{Result, Status, ok, err, inval, perm, busy, notsup, checked, chained}
use scdk.Object.{boot_core}
use scdk.Kernel.{Kernel, Message}
use scdk.Endpoint
use scdk.Message.{msg_service_lookup}

-- `SCDK_SERVICE_SESSION`, and the number of the handler's function
abbrev pub service_session : ℕ
service_session = 8

abbrev pub session_handler : ℕ
session_handler = 3

-- `session_service_allowed`: the console, the file system, the processes, the terminal and the
-- grant test
abbrev pub service_allowed : ℕ → Bool
service_allowed id = id == 1 || id == 3 || id == 4 || id == 7 || id == 5

-- `session_endpoint_handler`, which does not look at the endpoint or the context
unfoldable pub handler : Message → Kernel → Status × Message × Kernel
handler msg k =
    if not (msg.type == msg_service_lookup)
    then (err notsup, msg, k)
    else if not (service_allowed msg.arg0)
    then (err perm, msg, k)
    else elim (Endpoint.service k msg.arg0 true) [
      | err e ↦ (err e, msg, k)
      | ok endpoint ↦ (ok tt, record msg { arg0 = endpoint; arg1 = 0; arg2 = 0; arg3 = 0 }, k)
    ]

-- `scdk_session_service_init` with its static flag; `out` says that `out_endpoint` is not null.
unfoldable pub service_init : Kernel → Bool → Bool → Result ℕ × (Bool × Kernel)
service_init k started out =
    if not out
    then (err inval, (started, k))
    else if started
    then (err busy, (started, k))
    else let (r, k1) = Endpoint.create k boot_core session_handler 0 true in
      checked r (started, k1)
        λ endpoint.
          let (status, k2) = Endpoint.register k1 service_session endpoint in
          checked status (started, k2) λ _. (ok endpoint, (true, k2))
