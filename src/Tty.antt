-- ===== src/Tty.antt =====
-- src/services/tty_service.c and src/include/scdk/tty.h: the keyboard's events as messages. What
-- the keyboard's ports hold are arguments.
pub mod Pack
use scdk.Base.{ℕ, ◌*◌, ◌%◌, ◌^◌, bit_or, Bool, true, not, ◌==◌, if◌then◌else◌}
use scdk.Status.{Result, Status, ok, err, inval, busy, notsup, checked}
use scdk.Object.{boot_core}
use scdk.Kernel.{Kernel, Message}
use scdk.Endpoint
use scdk.Message.{msg_tty_poll_event, msg_tty_get_info}
use scdk.Keyboard
use scdk.Keyboard.{Keyboard, Event, poll}

-- `SCDK_SERVICE_TTY`, and the number of the handler's function
abbrev pub service_tty : ℕ
service_tty = 7

abbrev pub tty_handler : ℕ
tty_handler = 4

-- `sizeof(struct scdk_input_event)` and `SCDK_TTY_INFO_POLLING`
abbrev pub event_size : ℕ
event_size = 32

abbrev pub info_polling : ℕ
info_polling = 1

-- `(uint64_t)high << 32u | low`
unfoldable pub two_halves : ℕ → ℕ → ℕ
two_halves high low = bit_or (high * 2 ^ 32 % 2 ^ 64) low

-- `scdk_tty_pack_event` of pointers that are not null
unfoldable pub pack_event : Event → Message → Message
pack_event e msg = record msg {
  arg0 = e.timestamp;
  arg1 = two_halves e.type e.keycode;
  arg2 = e.ascii;
  arg3 = two_halves e.modifiers e.flags;
}

-- `tty_endpoint_handler`, which does not look at the endpoint or the context; `status` and
-- `scancode` are what the keyboard's ports hold
unfoldable pub handler : ℕ → ℕ → Message → Keyboard → Status × Message × Keyboard
handler status scancode msg keyboard =
    if msg.type == msg_tty_poll_event
    then (let (r, keyboard') = poll keyboard status scancode true in
        elim r [ err e ↦ (err e, msg, keyboard') | ok e ↦ (ok tt, pack_event e msg, keyboard') ])
    else if msg.type == msg_tty_get_info
    then (
      ok tt,
      record msg { arg0 = event_size; arg1 = info_polling; arg2 = 0; arg3 = 0 },
      keyboard,
    )
    else (err notsup, msg, keyboard)

-- The states that `scdk_tty_service_init` changes: its flag, the keyboard and the kernel.
pub record Tty : Type 0 where
  pub started : Bool
  pub keyboard : Keyboard
  pub kernel : Kernel

-- `scdk_tty_service_init`; `out` says that `out_endpoint` is not null. The keyboard's start cannot
-- fail.
unfoldable pub service_init : Tty → Bool → Result ℕ × Tty
service_init t out =
    if not out
    then (err inval, t)
    else if t.started
    then (err busy, t)
    else let t1 = record t { keyboard = Keyboard.init t.keyboard } in
      let (r, k1) = Endpoint.create t1.kernel boot_core tty_handler 0 true in
      checked r (record t1 { kernel = k1 })
        λ endpoint.
          let (status, k2) = Endpoint.register k1 service_tty endpoint in
          checked status (record t1 { kernel = k2 })
            λ _. (ok endpoint, record t1 { kernel = k2; started = true })
