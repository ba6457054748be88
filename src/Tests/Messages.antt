-- ===== src/Tests/Messages.antt =====
-- The message system call at a concrete input.
use scdk.Base.{◌^◌, ◌%◌, ◌≡◌, ◌⊎◌, refl, [], ◌∷◌}
use scdk.Status.{Error, ok, err}
use scdk.Kernel.{Message}
use scdk.UserSpace.{UserSpace}
use scdk.UserIpc.{Services, Answer, ready, arrange, endpoint_call, buffer_size}
use scdk.UserIpc.Guard.{Sent, endpoint_call-cases}
use scdk.Tests.Calls.{echo, with_endpoint}

-- All memory is the user's; the byte at each address is its last digit.
abbrev pub open_space : UserSpace
open_space = record { flags_at = λ a. ok 3; byte_at = λ a. a % 256 }

abbrev pub echoes : Services
echoes = record { handlers = λ bytes. echo; writes = λ bytes msg k u. u }

-- Three bytes to write, from an address whose last digits are 1, 2 and 3.
abbrev three_bytes : Message
three_bytes = record {
  sender = 5;
  target = 1;
  type = 4;
  arg0 = 0x100001;
  arg1 = 3;
  arg2 = 0;
  arg3 = 0;
  status = 0;
}

bytes_read :
    arrange open_space 4096 three_bytes
    ≡ ready (record three_bytes { arg0 = 4096 }) (1 ∷ 2 ∷ 3 ∷ 0 ∷ [])
unfolding arrange scdk.UserIpc.read_buffer scdk.UserSpace.copy_from scdk.UserSpace.validate_range
    scdk.UserSpace.checked_user_end
bytes_read = refl

endpoint_call-cases_example :
    let a = endpoint_call echoes 4096 open_space with_endpoint (2 ^ 32) 0x100000 in
    ((e : Error) × (a.status ≡ err e) × (a.kernel ≡ with_endpoint))
    ⊎ Sent echoes 4096 open_space with_endpoint (2 ^ 32) 0x100000
endpoint_call-cases_example =
    endpoint_call-cases echoes 4096 open_space with_endpoint (2 ^ 32) 0x100000
