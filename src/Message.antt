-- ===== src/Message.antt =====
-- src/ipc/message.c: the two constructors of message envelopes.
use scdk.Base.{ℕ, Bool, not, ◌||◌, ◌==◌, if◌then◌else◌}
use scdk.Status.{Result, ok, err, inval, status_word}
use scdk.Kernel.{Message}

-- The message types that the file services answer.
abbrev pub msg_open : ℕ
msg_open = 1

abbrev pub msg_close : ℕ
msg_close = 2

abbrev pub msg_read : ℕ
msg_read = 3

abbrev pub msg_stat : ℕ
msg_stat = 12288

abbrev pub msg_listdir : ℕ
msg_listdir = 12289

-- Those of the session service and the terminal.
abbrev pub msg_service_lookup : ℕ
msg_service_lookup = 8

abbrev pub msg_tty_poll_event : ℕ
msg_tty_poll_event = 0x2100

abbrev pub msg_tty_get_info : ℕ
msg_tty_get_info = 0x2102

-- `SCDK_SERVICE_VFS`
abbrev pub service_vfs : ℕ
service_vfs = 3

-- `SCDK_MSG_WRITE` and `SCDK_MSG_RING_PROCESS`
abbrev pub msg_write : ℕ
msg_write = 4

abbrev pub msg_ring_process : ℕ
msg_ring_process = 12

-- `scdk_message_init` on a message that is not null: it writes every field.
unfoldable pub init : ℕ → ℕ → ℕ → Message
init sender target type = record {
  sender = sender;
  target = target;
  type = type;
  arg0 = 0;
  arg1 = 0;
  arg2 = 0;
  arg3 = 0;
  status = status_word {A = Unit {0}} (err inval);
}

-- `scdk_message_init_write`; `msg` says that the message is not null, and `buffer` is 0 for null.
unfoldable pub init_write : Bool → ℕ → ℕ → ℕ → ℕ → Result Message
init_write msg sender target buffer length =
    if not msg || buffer == 0
    then err inval
    else ok (record (init sender target msg_write) { arg0 = buffer; arg1 = length; status = 0 })
