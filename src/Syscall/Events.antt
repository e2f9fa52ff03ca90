-- ===== src/Syscall/Events.antt =====
-- ReadEvent of kernel/syscall.cpp: the messages of a task as the events of apps and
-- kernel/app_event.hpp. A message that is no event is dropped.
pub mod Delivery
use Prim.Native.Nat.{bit_and}
use min_os.Common.{
  ℕ, zero, suc, ◌+◌, ◌-◌, ◌%◌, ◌^◌, Bool, true, false, ◌&&◌, not, Option, none, some, List, [], ◌∷◌,
  ltb, leb, ◌==◌, if◌then◌else◌, length,
}
use min_os.Syscall.{Errno, Result, returns, refuses}
use min_os.Message.{Message, timer_timeout, key_push, mouse_move, mouse_button, window_close}

-- AppEvent, with the member of the union that is in use.
pub data AppEvent : Type 0 where
  quit : AppEvent
  mouse_moved : (x y dx dy buttons : ℕ) → AppEvent
  mouse_pressed : (x y press button : ℕ) → AppEvent
  timed_out : (timeout value : ℕ) → AppEvent
  key_pushed : (modifier keycode ascii press : ℕ) → AppEvent

-- kLControlBitMask | kRControlBitMask.
abbrev pub control_bits : ℕ
control_bits = 0x11

-- The body of the loop: the event that a message makes, if any.
unfoldable pub event_of : Message → Option AppEvent
event_of (key_push modifier keycode ascii press) =
    if (keycode == 20) && not (bit_and modifier control_bits == 0)
    then some quit
    else some (key_pushed modifier keycode ascii press)
event_of (mouse_move x y dx dy buttons) = some (mouse_moved x y dx dy buttons)
event_of (mouse_button x y press button) = some (mouse_pressed x y press button)
event_of (timer_timeout timeout value) =
    if leb (2 ^ 31) value then some (timed_out timeout ((2 ^ 32 - value) % 2 ^ 32)) else none
event_of (window_close layer_id) = some quit
event_of _ = none

-- Where the loop stops: with the events that it has stored and the messages that are left, or asleep
-- until there is a message.
pub data Reading : Type 0 where
  done : List AppEvent → List Message → Reading
  asleep : Reading

-- A round stores an event in front of those of the rounds after it.
abbrev pub store : Option AppEvent → Reading → Reading
store none reading = reading
store (some event) (done events msgs) = done (event ∷ events) msgs
store (some event) asleep = asleep

-- ++i, where an event has been stored.
abbrev pub next_index : Option AppEvent → ℕ → ℕ
next_index none i = i
next_index (some event) i = i + 1

-- The loop of ReadEvent, until it sleeps.
unfoldable pub read_events : List Message → (len i : ℕ) → Reading
unfolding event_of
read_events [] len i = if ltb i len && (i == 0) then asleep else done [] []
read_events (msg ∷ msgs) len i =
    let rest = store (event_of msg) (read_events msgs len (next_index (event_of msg) i)) in
    if ltb i len then rest else done [] (msg ∷ msgs)

-- What ReadEvent does when messages come in batches while it sleeps; `none` is a call that sleeps on.
unfoldable pub read_batches :
    List (List Message) → (len : ℕ) → Option (List AppEvent × List Message)
unfolding read_events
read_batches [] len = elim (read_events [] len 0) [
  | done events left ↦ some (events, left)
  | asleep ↦ none
]
read_batches (msgs ∷ batches) len = elim (read_events msgs len 0) [
  | done events left ↦ some (events, left)
  | asleep ↦ read_batches batches len
]

-- ReadEvent: what it returns, and the events that it stores. The address of the buffer must be the
-- application's.
unfoldable pub read_event :
    (batches : List (List Message)) → (arg1 len : ℕ) → Option (Result × List AppEvent)
unfolding read_batches
read_event batches arg1 len =
    if ltb arg1 (2 ^ 63) then some (refuses Errno.efault, []) else elim (read_batches batches len) [
      | none ↦ none
      | some (events, left) ↦ some (returns (length events), events)
    ]
