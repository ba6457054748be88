-- ===== src/Keyboard.antt =====
-- src/drivers/input/ps2_keyboard.c and src/include/scdk/input.h: the keyboard's state machine and
-- its queue of events. What the driver reads from the controller's ports are arguments.
pub mod Keys
pub mod Queue
pub mod Stamped
pub mod Trace
pub mod Modifiers
pub mod History
use scdk.Base.{
  ℕ, ◌+◌, ◌-◌, ◌%◌, ◌^◌, bit_and, bit_or, Bool, true, false, not, ◌&&◌, ◌||◌, ltb, leb, ◌==◌,
  if◌then◌else◌, update,
}
use scdk.Status.{Result, Status, ok, err, inval, busy, noent}
use Keys.{KeyMapEntry, caps_lock_key, table_entry, scancode_set1, extended_scancode_set1}

-- `KEY_QUEUE_SIZE`
abbrev pub queue_size : ℕ
queue_size = 32

abbrev pub key_down : ℕ
key_down = 1

abbrev pub key_up : ℕ
key_up = 2

abbrev pub mod_shift : ℕ
mod_shift = 2 ^ 0

abbrev pub mod_caps_lock : ℕ
mod_caps_lock = 2 ^ 1

-- `struct scdk_input_event`
pub record Event : Type 0 where
  pub timestamp : ℕ
  pub type : ℕ
  pub keycode : ℕ
  pub ascii : ℕ
  pub modifiers : ℕ
  pub flags : ℕ

pub record Keyboard : Type 0 where
  pub queue : ℕ → Event
  pub head : ℕ
  pub tail : ℕ
  pub count : ℕ
  pub clock : ℕ
  pub initialized : Bool
  pub left_shift_down : Bool
  pub right_shift_down : Bool
  pub caps_lock_on : Bool
  pub extended_pending : Bool

-- `is_alpha_entry`
abbrev pub is_alpha_entry : KeyMapEntry → Bool
is_alpha_entry e = leb 97 e.normal && leb e.normal 122 && leb 65 e.shifted && leb e.shifted 90

-- `shift_down`
abbrev pub shift_down : Keyboard → Bool
shift_down k = k.left_shift_down || k.right_shift_down

-- `current_modifiers`
unfoldable pub current_modifiers : Keyboard → ℕ
current_modifiers k =
    bit_or (if shift_down k then mod_shift else 0) (if k.caps_lock_on then mod_caps_lock else 0)

-- `a != b` of two flags
abbrev pub differ : Bool → Bool → Bool
differ true b = not b
differ false b = b

-- `ascii_for_entry` of an entry that is not null
unfoldable pub ascii_for_entry : Keyboard → KeyMapEntry → ℕ
ascii_for_entry k e =
    if is_alpha_entry e
    then (if differ (shift_down k) k.caps_lock_on then e.shifted else e.normal) % 2 ^ 8
    else (if shift_down k then e.shifted else e.normal) % 2 ^ 8

-- `enqueue_event` of an event that is not null
unfoldable pub enqueue_event : Keyboard → Event → Status × Keyboard
enqueue_event k e = if leb queue_size k.count then (err busy, k) else (
  ok tt,
  record k {
    queue = update k.queue k.tail e;
    tail = (k.tail + 1) % 2 ^ 32 % queue_size;
    count = k.count + 1;
  },
)

-- `dequeue_event` to a pointer that is not null
unfoldable pub dequeue_event : Keyboard → Result Event × Keyboard
dequeue_event k = if k.count == 0 then (err noent, k) else (
  ok (k.queue k.head),
  record k { head = (k.head + 1) % 2 ^ 32 % queue_size; count = k.count - 1 },
)

-- The clock's next value, which an event bears.
abbrev pub tick : Keyboard → ℕ
tick k = (k.clock + 1) % 2 ^ 64

abbrev pub ticked : Keyboard → Keyboard
ticked k = record k { clock = tick k }

-- The caps lock key's press.
abbrev pub toggle_caps : Keyboard → KeyMapEntry → Bool → Keyboard
toggle_caps k e released =
    if e.keycode == caps_lock_key && not released
    then record k { caps_lock_on = not k.caps_lock_on }
    else k

abbrev pub key_event : Keyboard → KeyMapEntry → Bool → Event
key_event k e released = record {
  timestamp = tick k;
  type = if released then key_up else key_down;
  keycode = e.keycode;
  ascii = if released then 0 else ascii_for_entry k e;
  modifiers = current_modifiers k;
  flags = 0;
}

-- The end of `handle_scancode`, for a key with an entry.
abbrev pub handle_key : Keyboard → KeyMapEntry → Bool → Status × Keyboard
handle_key k e released =
    let k' = toggle_caps k e released in enqueue_event (ticked k') (key_event k' e released)

-- `handle_scancode` past the prefix, which `extended` says was there.
unfoldable pub handle_code : Keyboard → Bool → ℕ → Bool → Status × Keyboard
handle_code k extended code released =
    let e =
      if extended
      then table_entry extended_scancode_set1 code
      else table_entry scancode_set1 code in
    if not extended && code == 42
    then (err noent, record k { left_shift_down = not released })
    else if not extended && code == 54
    then (err noent, record k { right_shift_down = not released })
    else if leb 128 code || e.keycode == 0
    then (err noent, k)
    else handle_key k e released

-- `handle_scancode`
unfoldable pub handle_scancode : Keyboard → ℕ → Status × Keyboard
unfolding handle_code
handle_scancode k scancode =
    if scancode == 224
    then (err noent, record k { extended_pending = true })
    else handle_code (record k { extended_pending = false }) k.extended_pending
        (bit_and scancode 127) (not (bit_and scancode 128 == 0))

-- `scdk_keyboard_init`; the queue's storage keeps what it held.
unfoldable pub init : Keyboard → Keyboard
init k = record {
  queue = k.queue;
  head = 0;
  tail = 0;
  count = 0;
  clock = 0;
  initialized = true;
  left_shift_down = false;
  right_shift_down = false;
  caps_lock_on = false;
  extended_pending = false;
}

abbrev pub ready : Keyboard → Keyboard
ready k = if k.initialized then k else init k

-- The end of `scdk_keyboard_poll`, after the first look at the queue.
abbrev pub polled : ℕ → ℕ → Result Event × Keyboard → Result Event × Keyboard
polled status scancode (ok e, k) = (ok e, k)
polled status scancode (err _, k) =
    if bit_and status 1 == 0 then (err noent, k) else dequeue_event (handle_scancode k scancode).1

-- `scdk_keyboard_poll`; `out` says that the pointer is not null, `status` and `scancode` are what
-- the two ports hold.
unfoldable pub poll : Keyboard → ℕ → ℕ → Bool → Result Event × Keyboard
poll k status scancode out =
    if not out then (err inval, k) else polled status scancode (dequeue_event (ready k))

abbrev pub injected : Keyboard → ℕ → Event
injected k ascii = record {
  timestamp = tick k;
  type = key_down;
  keycode = ascii;
  ascii = ascii;
  modifiers = 0;
  flags = 0;
}

-- `scdk_keyboard_inject_test_key`
unfoldable pub inject_test_key : Keyboard → ℕ → Status × Keyboard
inject_test_key k ascii =
    if ascii == 0 || ltb 127 ascii
    then (err inval, ready k)
    else enqueue_event (ticked (ready k)) (injected (ready k) ascii)
