-- ===== src/Syscall/Events/Delivery.antt =====
-- What ReadEvent of kernel/syscall.cpp makes of the messages: their events, in their order, and no
-- event is lost.
use min_os.Common.{
  ℕ, Bool, true, false, if◌then◌else◌, ◌+◌, ◌≤◌, ◌<◌, ◌≡◌, ◌⊎◌, inl, inr, refl, ap, ◌&&◌, Option,
  none, some, List, [], ◌∷◌, ◌++◌, ltb, ◌==◌, length, All, arith, Bool-cases,
}
use min_os.Message.{Message}
use min_os.Syscall.Events.{
  AppEvent, event_of, Reading, done, asleep, store, next_index, read_events, read_batches,
}

-- The events of the messages.
abbrev pub cons_event : Option AppEvent → List AppEvent → List AppEvent
cons_event none events = events
cons_event (some event) events = event ∷ events

abbrev pub events_of : List Message → List AppEvent
events_of [] = []
events_of (msg ∷ msgs) = cons_event (event_of msg) (events_of msgs)

-- Of all the events that the messages make, the loop stores the first ones, as many as there is room
-- for, and leaves the messages of the others; it sleeps where there is room and no event at all.
abbrev pub Reads : (all : List AppEvent) (len i : ℕ) → Reading → Type 0
Reads all len i (done events left) =
    (all ≡ events ++ events_of left)
    × (i + length events ≤ len)
    × ((left ≡ []) ⊎ (i + length events ≡ len))
    × ((0 < i + length events) ⊎ (len ≡ 0))
Reads all len i asleep = (all ≡ []) × (i ≡ 0) × (0 < len)

store-Reads :
    (event : Option AppEvent) (all : List AppEvent) (len i : ℕ) (reading : Reading)
    → i < len
    → Reads all len (next_index event i) reading
    → Reads (cons_event event all) len i (store event reading)
store-Reads none all len i reading lt r = r
store-Reads (some event) all len i (done events left) lt r = (
  ap (λ (es : List AppEvent). event ∷ es) r.0,
  omega (arith, r.1),
  elim (r.2) [ inl none_left ↦ inl none_left | inr full ↦ inr (omega arith) ],
  inl (omega arith),
)
store-Reads (some event) all len i asleep lt r = absurd (omega (arith, r.1))

read_events-Reads :
    (msgs : List Message) (len i : ℕ)
    → i ≤ len
    → Reads (events_of msgs) len i (read_events msgs len i)
unfolding read_events
read_events-Reads [] len i le = elim (Bool-cases (ltb i len && (i == 0))) [
  | inl waits ↦ rw waits (refl, ground arith, ground arith)
  | inr ends ↦ rw ends (refl, omega arith, inl refl, ground arith)
]
read_events-Reads (msg ∷ msgs) len i le = elim (Bool-cases (ltb i len)) [
  | inl room ↦ rw room (
      store-Reads (event_of msg) (events_of msgs) len i _ (ground arith) (
        read_events-Reads msgs len (next_index (event_of msg) i)
          (next_fits (event_of msg) len i (ground arith))))
  | inr full ↦ rw full (refl, omega arith, inr (ground arith), ground arith)
]
  where
    next_fits : (event : Option AppEvent) (len i : ℕ) → i < len → next_index event i ≤ len
    next_fits none len i lt = omega arith
    next_fits (some event) len i lt = omega arith

-- Messages that make no event.
abbrev pub IsSilent : List Message → Type 0
IsSilent msgs = events_of msgs ≡ []

-- What ReadEvent makes of the batches.
abbrev pub Delivers :
    (batches : List (List Message)) (len : ℕ) → Option (List AppEvent × List Message) → Type 0
Delivers batches len none = All IsSilent batches × (0 < len)
Delivers [] len (some (events, left)) = (events ≡ []) × (left ≡ []) × (len ≡ 0)
Delivers (first ∷ rest) len (some (events, left)) =
    (before : List (List Message)) × (msgs : List Message) × (after : List (List Message)) × (first
        ∷ rest
      ≡ before ++ msgs ∷ after)
    × All IsSilent before
    × (events_of msgs ≡ events ++ events_of left)
    × (length events ≤ len)
    × ((left ≡ []) ⊎ (length events ≡ len))
    × ((0 < length events) ⊎ (len ≡ 0))

later-Delivers :
    (msgs : List Message) (batches : List (List Message)) (len : ℕ)
    (o : Option (List AppEvent × List Message))
    → IsSilent msgs
    → 0 < len
    → Delivers batches len o
    → Delivers (msgs ∷ batches) len o
later-Delivers msgs batches len none silent room d = ((silent, d.0), d.1)
later-Delivers msgs [] len (some (events, left)) silent room d = absurd (omega (arith, d.2))
later-Delivers msgs (first ∷ rest) len (some (events, left)) silent room d = (
  msgs ∷ d.0,
  d.1,
  d.2,
  ap (λ (b : List (List Message)). msgs ∷ b) d.3,
  (silent, d.4),
  d.5,
  d.6,
  d.7,
  d.8,
)

batch-Delivers :
    (msgs : List Message) (batches : List (List Message)) (len : ℕ) (reading : Reading)
    → Reads (events_of msgs) len 0 reading
    → Delivers batches len (read_batches batches len)
    → Delivers (msgs ∷ batches) len (elim reading [
      | done events left ↦ some (events, left)
      | asleep ↦ read_batches batches len
    ])
batch-Delivers msgs batches len asleep r d = later-Delivers msgs batches len _ r.0 r.2 d
batch-Delivers msgs batches len (done events left) r d = (
  [],
  msgs,
  batches,
  refl,
  tt,
  r.0,
  omega (arith, r.1),
  elim (r.2) [ inl none_left ↦ inl none_left | inr full ↦ inr (omega arith) ],
  elim (r.3) [ inl some_stored ↦ inl (omega arith) | inr no_room ↦ inr no_room ],
)

no_batch-Delivers :
    (len : ℕ) (room : Bool)
    → ltb 0 len ≡ room
    → Delivers [] len
        (elim (if room && true then asleep else done [] [])
          as (λ (x : Reading). Option (List AppEvent × List Message)) [
            | done events left ↦ some (events, left)
            | asleep ↦ none
          ])
no_batch-Delivers len true e = (tt, ground (arith, e))
no_batch-Delivers len false e = (refl, refl, ground (arith, e))

-- ReadEvent, whose task sleeps while there is no message and there is room, with batches of messages
-- between: it sleeps on over the batches that make no event. From the first other batch, or the first at all if
-- there is no room, it stores the events, in their order and as many as there is room for, and
-- leaves the messages that make the rest; it stores one at least if there is room.
pub read_batches-Delivers :
    (batches : List (List Message)) (len : ℕ) → Delivers batches len (read_batches batches len)
unfolding read_batches read_events
read_batches-Delivers [] len = no_batch-Delivers len (ltb 0 len) refl
read_batches-Delivers (msgs ∷ batches) len =
    batch-Delivers msgs batches len (read_events msgs len 0)
      (read_events-Reads msgs len 0 (omega arith)) (read_batches-Delivers batches len)
