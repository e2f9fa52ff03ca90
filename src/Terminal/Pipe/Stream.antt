-- ===== src/Terminal/Pipe/Stream.antt =====
-- PipeDescriptor of kernel/terminal.cpp as a stream of bytes.
use Prim.Native.Nat.{min}
use mathlib.Core.Path.{subst}
use mathlib.Core.List.{append_assoc}
use min_os.Common.{
  ℕ, zero, suc, ◌+◌, ◌≤◌, ◌<◌, ◌≡◌, refl, sym, ap, ◌∙◌, Bool, true, false, Option, some, List, [],
  ◌∷◌, ◌++◌, if◌then◌else◌, length, take, drop, length-take, take-drop, arith,
}
use min_os.Message.{Message, pipe}
use min_os.Terminal.Pipe.{Pipe, receive, read_pipe, chunks, write_pipe}

-- The bytes of the messages, up to the end that FinishWrite sends.
unfoldable pub pending : List Message → List ℕ
pending [] = []
pending (pipe [] ∷ messages) = []
pending (pipe (b ∷ bs) ∷ messages) = (b ∷ bs) ++ pending messages
pending (_ ∷ messages) = pending messages

-- The bytes that can still be read.
unfoldable pub stream : Pipe → List ℕ
unfolding pending
stream p = p.bytes ++ (if p.closed then [] else pending p.messages)

-- No end has been sent.
unfoldable pub IsOpen : List Message → Type 0
IsOpen [] = Unit
IsOpen (pipe [] ∷ messages) = ⊥
IsOpen (pipe (b ∷ bs) ∷ messages) = IsOpen messages
IsOpen (_ ∷ messages) = IsOpen messages

pending-append :
    (front back : List Message)
    → IsOpen front
    → pending (front ++ back) ≡ pending front ++ pending back
unfolding pending IsOpen
pending-append [] back open_front = refl
pending-append (pipe [] ∷ front) back open_front = absurd open_front
pending-append (pipe (b ∷ bs) ∷ front) back open_front =
    ap (λ l. (b ∷ bs) ++ l) (pending-append front back open_front)
    ∙ sym (append_assoc (b ∷ bs) (pending front) (pending back))
pending-append (m ∷ front) back open_front = pending-append front back open_front

length-drop_le : (n : ℕ) (bytes : List ℕ) → length (drop n bytes) ≤ length bytes
length-drop_le zero bytes = omega arith
length-drop_le (suc n) [] = omega arith
length-drop_le (suc n) (b ∷ bytes) = omega (arith, length-drop_le n bytes)

-- Some bytes and the others.
parts : (n : ℕ) (bytes others : List ℕ) → bytes ++ others ≡ take n bytes ++ (drop n bytes ++ others)
parts n bytes others =
    ap (λ l. l ++ others) (sym (take-drop n bytes))
    ∙ append_assoc (take n bytes) (drop n bytes) others

chunks-more :
    (rounds b : ℕ) (bs : List ℕ) (rest : List Message)
    → chunks rounds (drop 16 (b ∷ bs)) ≡ some rest
    → chunks (suc rounds) (b ∷ bs) ≡ some (pipe (take 16 (b ∷ bs)) ∷ rest)
unfolding chunks
chunks-more rounds b bs rest e = rw e refl

-- The messages of Write carry the buffer.
chunks-pending :
    (rounds : ℕ) (buf : List ℕ)
    → length buf < rounds
    → (sent : List Message) × (chunks rounds buf ≡ some sent) × (pending sent ≡ buf)
unfolding pending chunks
chunks-pending zero buf h = absurd (omega arith)
chunks-pending (suc rounds) [] h = ([], refl, refl)
chunks-pending (suc rounds) (b ∷ bs) h =
    let (rest, run, carried) =
      chunks-pending rounds (drop 16 (b ∷ bs)) (omega (arith, length-drop_le 15 bs)) in
    (
      pipe (take 16 (b ∷ bs)) ∷ rest,
      chunks-more rounds b bs rest run,
      ap (λ l. take 16 (b ∷ bs) ++ l) carried ∙ take-drop 16 (b ∷ bs),
    )

-- A call of Read that takes bytes from the front of `whole`.
abbrev pub Takes : (len : ℕ) → Option (List ℕ × Pipe) → (whole : List ℕ) → Type 0
Takes len result whole =
    (bytes : List ℕ) × (p : Pipe) × (result ≡ some (bytes, p))
    × (whole ≡ bytes ++ stream p)
    × (0 < length bytes)
    × (length bytes ≤ len)

receive-Takes :
    (len : ℕ) (messages : List Message)
    → 0 < len
    → 0 < length (pending messages)
    → Takes len (receive len messages) (pending messages)
unfolding pending receive stream
receive-Takes len [] h k = absurd (omega arith)
receive-Takes len (pipe [] ∷ messages) h k = absurd (omega arith)
receive-Takes len (pipe (b ∷ bs) ∷ messages) h k =
    let n = min (length (b ∷ bs)) len in
    let size = length-take n (b ∷ bs) (omega arith) in
    (_, _, refl, parts n (b ∷ bs) (pending messages), omega (arith, size), omega (arith, size))
receive-Takes len (m ∷ messages) h k = receive-Takes len messages h k

read_pipe-fields :
    (len : ℕ) (bytes : List ℕ) (closed : Bool) (messages : List Message)
    → 0 < len
    → let p : Pipe = record { bytes = bytes; closed = closed; messages = messages } in
      0 < length (stream p) → Takes len (read_pipe len p) (stream p)
unfolding stream read_pipe
read_pipe-fields len [] true messages h k = absurd (omega arith)
read_pipe-fields len [] false messages h k = receive-Takes len messages h k
read_pipe-fields len (b ∷ bs) closed messages h k =
    let n = min (length (b ∷ bs)) len in
    let size = length-take n (b ∷ bs) (omega arith) in
    (_, _, refl, parts n (b ∷ bs) _, omega (arith, size), omega (arith, size))

write_pipe-run :
    (buf : List ℕ) (p : Pipe) (sent : List Message)
    → chunks (length buf + 1) buf ≡ some sent
    → write_pipe buf p ≡ some (record p { messages = p.messages ++ sent })
unfolding write_pipe
write_pipe-run buf p sent e = rw (write_pipe, e) refl

write_pipe-stream :
    (buf : List ℕ) (p : Pipe)
    → p.closed ≡ false
    → IsOpen p.messages
    → (p' : Pipe) × (write_pipe buf p ≡ some p') × (stream p' ≡ stream p ++ buf)
unfolding stream
write_pipe-stream buf p not_closed open_messages =
    let (sent, run, carried) = chunks-pending (length buf + 1) buf (omega arith) in
    (
      record p { messages = p.messages ++ sent },
      write_pipe-run buf p sent run,
      rw not_closed (
          ap (λ l. p.bytes ++ l)
            (pending-append p.messages sent open_messages
              ∙ ap (λ l. pending p.messages ++ l) carried)
          ∙ sym (append_assoc p.bytes (pending p.messages) buf)),
    )

-- A pipe to which no end has been sent is a queue of bytes: Write returns and puts its buffer behind
-- the bytes that can be read, and Read of at least one byte, when there is one, then returns without
-- waiting and takes some of them, `len` at most, from the front.
pub write_pipe-read_pipe :
    (p : Pipe) (buf : List ℕ) (len : ℕ)
    → p.closed ≡ false
    → IsOpen p.messages
    → 0 < len
    → 0 < length (stream p ++ buf)
    → (p' : Pipe) × (write_pipe buf p ≡ some p')
      × (stream p' ≡ stream p ++ buf)
      × Takes len (read_pipe len p') (stream p ++ buf)
write_pipe-read_pipe p buf len not_closed open_messages h k =
    let (p', run, whole) = write_pipe-stream buf p not_closed open_messages in
    (
      p',
      run,
      whole,
      subst (Takes len (read_pipe len p')) whole (
          read_pipe-fields len p'.bytes p'.closed p'.messages h
            (omega (arith, k, ap length whole))),
    )
