-- ===== src/UserIpc.antt =====
-- src/ipc/user_ipc.c: the system call that sends a user's message to an endpoint. What the call
-- reports to src/arch/x86_64/fault.c, which ends the task, is a part of its answer.
pub mod Guard
use scdk.Base.{
  ℕ, ◌+◌, ◌-◌, ◌*◌, ◌^◌, Bool, true, false, not, ◌&&◌, ◌||◌, Option, none, some, ltb, ◌==◌,
  if◌then◌else◌, List, [], ◌∷◌, ◌++◌,
}
use scdk.Status.{
  Error, Result, Status, ok, err, inval, noent, perm, bounds, notsup, status_word, guard, ◌>>=◌,
  ◌>>◌,
}
use scdk.Object.{obj_endpoint}
use scdk.Cap
use scdk.Cap.{right_send}
use scdk.Kernel.{Kernel, Message}
use scdk.Message.{
  msg_write, msg_open, msg_close, msg_read, msg_stat, msg_listdir, msg_service_lookup,
  msg_tty_poll_event, msg_tty_get_info, service_vfs,
}
use scdk.Endpoint.{Handlers, service}
use scdk.Endpoint as Endpoint
use scdk.UserSpace.{UserSpace, validate_range, copy_from, copy_to}
use scdk.UserRing.{bytes_of}
use scdk.UserRing.Batch.{field}

-- Further message types.
abbrev pub msg_process_spawn : ℕ
msg_process_spawn = 9

abbrev pub msg_console_write : ℕ
msg_console_write = 0x2000

abbrev pub msg_console_clear : ℕ
msg_console_clear = 0x2001

abbrev pub msg_console_get_info : ℕ
msg_console_get_info = 0x2002

abbrev pub msg_console_scroll : ℕ
msg_console_scroll = 0x2004

-- `sizeof(payload_buffer)`, and `sizeof(struct scdk_message)`
abbrev pub buffer_size : ℕ
buffer_size = 257

abbrev pub message_size : ℕ
message_size = 64

-- A `struct scdk_message` in memory, read and written.
unfoldable pub message_of : List ℕ → Message
message_of bytes = record {
  sender = field bytes 0;
  target = field bytes 8;
  type = field bytes 16;
  arg0 = field bytes 24;
  arg1 = field bytes 32;
  arg2 = field bytes 40;
  arg3 = field bytes 48;
  status = field bytes 56;
}

unfoldable pub message_bytes : Message → List ℕ
message_bytes m =
    bytes_of 8 m.sender
    ++ bytes_of 8 m.target
    ++ bytes_of 8 m.type
    ++ bytes_of 8 m.arg0
    ++ bytes_of 8 m.arg1
    ++ bytes_of 8 m.arg2
    ++ bytes_of 8 m.arg3
    ++ bytes_of 8 m.status

-- `validate_user_message_target` on a message that is not null
unfoldable pub check_target : Kernel → ℕ → Message → Status
check_target k endpoint_cap msg = do
  guard (not (msg.target == 0)) inval
  endpoint ← service k msg.target true
  guard (endpoint == endpoint_cap) perm

-- The types whose first two arguments name bytes of the user.
abbrev pub takes_buffer : ℕ → Bool
takes_buffer type =
    type == msg_write
    || type == msg_open
    || type == msg_process_spawn
    || type == msg_stat
    || type == msg_listdir

-- `prepare_user_buffer_arg` on pointers that are not null: the bytes that the buffer then holds.
unfoldable pub read_buffer : UserSpace → Message → Result (List ℕ)
read_buffer u msg = do
  guard (takes_buffer msg.type) notsup
  guard (not (msg.arg0 == 0 || msg.arg1 == 0 || ltb (buffer_size - 1) msg.arg1)) bounds
  bytes ← copy_from u msg.arg0 true msg.arg1
  ok (bytes ++ (0 ∷ []))

-- The types that are passed on as they are.
abbrev pub passes : ℕ → Bool
passes type =
    type == msg_console_write
    || type == msg_console_clear
    || type == msg_console_get_info
    || type == msg_console_scroll
    || type == msg_tty_poll_event
    || type == msg_tty_get_info
    || type == msg_close
    || type == msg_service_lookup

-- What the call reports of the task: a capability that failed, or a bad pointer.
pub data Fault : Type 0 where
  capability_failure : Fault
  bad_pointer : ℕ → Fault

-- How the switch on the message's type ends: with an error, the report and the message as it then is;
-- or with the message to send and the bytes in the buffer.
pub data Arranged : Type 0 where
  refused : Error → Option Fault → Message → Arranged
  ready : Message → List ℕ → Arranged

abbrev pub reported : Error → Bool
reported bounds = true
reported noent = true
reported perm = true
reported _ = false

-- The test of the user's output range, which `arg2` and `arg3` name.
abbrev pub arrange_output : UserSpace → Message → List ℕ → Arranged
arrange_output u msg bytes = elim (validate_range u msg.arg2 msg.arg3 true) [
  | err e ↦ refused e (some (bad_pointer msg.arg2)) msg
  | ok _ ↦ ready msg bytes
]

-- The switch. `buffer` is the kernel's address of the buffer.
unfoldable pub arrange : UserSpace → ℕ → Message → Arranged
arrange u buffer msg =
    if takes_buffer msg.type
    then elim (read_buffer u msg) [
      | err e ↦ refused e (if reported e then some (bad_pointer msg.arg0) else none) msg
      | ok bytes ↦
          let msg' = record msg { arg0 = buffer } in
          if msg.type == msg_listdir then arrange_output u msg' bytes else ready msg' bytes
    ]
    else if msg.type == msg_read
    then (if msg.target == service_vfs then arrange_output u msg [] else ready msg [])
    else if passes msg.type
    then ready msg []
    else refused notsup none msg

-- The status, the report, and what the call leaves of user memory and the kernel.
pub record Answer : Type 0 where
  pub status : Status
  pub fault : Option Fault
  pub user : UserSpace
  pub kernel : Kernel

-- The message goes back to the user with the error; a failure of that is passed over.
abbrev pub refuse : UserSpace → Kernel → ℕ → Message → Error → Option Fault → Answer
refuse u k user_message msg e fault =
    let word = status_word {A = Unit {0}} (err e) in
    record {
      status = err e;
      fault = fault;
      user = (copy_to u user_message (message_bytes (record msg { status = word }))).1;
      kernel = k;
    }

-- The handlers that a call reaches, for the bytes in the buffer, and what they write to user memory.
pub record Services : Type 0 where
  pub handlers : List ℕ → Handlers
  pub writes : List ℕ → Message → Kernel → UserSpace → UserSpace

-- The end of the call, with a message to send.
unfoldable pub send : Services → UserSpace → Kernel → ℕ → ℕ → Message → List ℕ → Answer
send services u k endpoint_cap user_message msg bytes =
    let (status, msg', k') = Endpoint.call (services.handlers bytes) k endpoint_cap msg in
    let written = services.writes bytes msg k u in
    let (copied, u') =
      copy_to written user_message (message_bytes (record msg' { status = status_word status })) in
    record {
      status = elim copied [ err e ↦ err perm | ok _ ↦ status ];
      fault = none;
      user = u';
      kernel = k';
    }

-- The end of the call, after the switch.
unfoldable pub conclude : Services → UserSpace → Kernel → ℕ → ℕ → Arranged → Answer
unfolding send
conclude services u k endpoint_cap user_message (refused e fault m) =
    refuse u k user_message m e fault
conclude services u k endpoint_cap user_message (ready m payload) =
    send services u k endpoint_cap user_message m payload

-- `scdk_sys_endpoint_call`
unfoldable pub endpoint_call : Services → ℕ → UserSpace → Kernel → ℕ → ℕ → Answer
endpoint_call services buffer u k endpoint_cap user_message =
    elim (Cap.check k.space endpoint_cap right_send obj_endpoint) [
      | err e ↦ record { status = err e; fault = some capability_failure; user = u; kernel = k }
      | ok entry ↦ elim (copy_from u user_message true message_size) [
        | err e ↦ record {
          status = err e;
          fault = some (bad_pointer user_message);
          user = u;
          kernel = k;
        }
        | ok bytes ↦
            let msg = message_of bytes in
            elim (check_target k endpoint_cap msg) [
              | err e ↦ refuse u k user_message msg e (some capability_failure)
              | ok _ ↦ conclude services u k endpoint_cap user_message (arrange u buffer msg)
            ]
      ]
    ]
