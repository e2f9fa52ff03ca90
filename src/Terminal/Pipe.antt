-- ===== src/Terminal/Pipe.antt =====
-- PipeDescriptor of kernel/terminal.cpp, with the messages of the task that reads. `data_` is the list
-- of its `len_` bytes. Sleep while no message has come, and the wake-up by SendMessage, are in Task.
pub mod Stream
use Prim.Native.Nat.{min}
use min_os.Common.{
  ℕ, zero, suc, ◌+◌, Bool, true, false, Option, none, some, List, [], ◌∷◌, ◌++◌, if◌then◌else◌,
  length, take, drop,
}
use min_os.Message.{Message, pipe}

pub record Pipe : Type 0 where
  pub bytes : List ℕ
  pub closed : Bool
  pub messages : List Message

-- The loop of Read over the messages: what it returns, and the pipe after it; `none` if it waits for
-- a message.
unfoldable pub receive : (len : ℕ) → List Message → Option (List ℕ × Pipe)
receive len [] = none
receive len (pipe [] ∷ messages) =
    some ([], record { bytes = []; closed = true; messages = messages })
receive len (pipe (b ∷ bs) ∷ messages) =
    let copy_bytes = min (length (b ∷ bs)) len in
    some (
      take copy_bytes (b ∷ bs),
      record { bytes = drop copy_bytes (b ∷ bs); closed = false; messages = messages },
    )
receive len (_ ∷ messages) = receive len messages

-- Read.
unfoldable pub read_pipe : (len : ℕ) → Pipe → Option (List ℕ × Pipe)
unfolding receive
read_pipe len p = elim p.bytes [
  | [] ↦ if p.closed then some ([], p) else receive len p.messages
  | b ∷ bs ↦
      let copy_bytes = min (length (b ∷ bs)) len in
      some (take copy_bytes (b ∷ bs), record p { bytes = drop copy_bytes (b ∷ bs) })
]

-- The loop of Write: the messages that it sends.
unfoldable pub chunks : (rounds : ℕ) → List ℕ → Option (List Message)
chunks zero buf = none
chunks (suc rounds) [] = some []
chunks (suc rounds) (b ∷ bs) = elim (chunks rounds (drop 16 (b ∷ bs))) [
  | none ↦ none
  | some rest ↦ some (pipe (take 16 (b ∷ bs)) ∷ rest)
]

-- Write; it returns the length of the buffer.
unfoldable pub write_pipe : List ℕ → Pipe → Option Pipe
unfolding chunks
write_pipe buf p = elim (chunks (length buf + 1) buf) [
  | none ↦ none
  | some sent ↦ some (record p { messages = p.messages ++ sent })
]

-- FinishWrite.
abbrev pub finish_write : Pipe → Pipe
finish_write p = record p { messages = p.messages ++ pipe [] ∷ [] }
