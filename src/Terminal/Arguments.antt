-- ===== src/Terminal/Arguments.antt =====
-- MakeArgVector of kernel/terminal.cpp stores the words of a command.
use mathlib.Core.Path.{subst}
use mathlib.Core.List.{append_assoc, append-nil}
use min_os.Common.{
  ℕ, zero, suc, ◌+◌, ◌≤◌, ◌<◌, ◌≡◌, refl, sym, ap, inl, inr, Bool, true, false, Option, none, some,
  List, [], ◌∷◌, ◌++◌, leb, if◌then◌else◌, length, length-append, arith, Bool-cases,
}
use min_os.Error.{Code}
use min_os.Terminal.{strcpy, Vector, push_to_argv, next_arg, pushed, push_args, make_arg_vector}
use min_os.Terminal.Buffer.{HasWords, HasWords-push}

-- The bytes that words take, with the zeros behind them.
abbrev pub bytes_of : List (List ℕ) → ℕ
bytes_of [] = 0
bytes_of (w ∷ ws) = length w + 1 + bytes_of ws

-- Words that end at a space each; behind the last space stands no word.
abbrev attach : ℕ → List (List ℕ) → List (List ℕ)
attach c [] = (c ∷ []) ∷ []
attach c (w ∷ ws) = (c ∷ w) ∷ ws

abbrev added : List ℕ → Vector → Vector
added text v = record {
  argv = v.argv ++ v.argbuf_index ∷ [];
  argbuf = strcpy text v.argbuf_index v.argbuf;
  argbuf_index = v.argbuf_index + (length text + 1);
}

module _ (isspace : ℕ → Bool) where
  abbrev pub words : List ℕ → List (List ℕ)
  words [] = []
  words (c ∷ text) = let rest = words text in if isspace c then [] ∷ rest else attach c rest

  abbrev pub words_behind : Option (List ℕ) → List (List ℕ)
  words_behind none = []
  words_behind (some text) = words text

  -- A rest is shorter than the text.
  abbrev IsShorter : Option (List ℕ) → ℕ → Type 0
  IsShorter none n = Unit
  IsShorter (some text) n = length text < n

  IsShorter-suc : (rest : Option (List ℕ)) (n : ℕ) → IsShorter rest n → IsShorter rest (suc n)
  IsShorter-suc none n h = tt
  IsShorter-suc (some text) n h = omega arith

  next_arg-space :
      (c : ℕ) (text : List ℕ) → isspace c ≡ true → next_arg isspace (c ∷ text) ≡ ([], some text)
  unfolding next_arg
  next_arg-space c text h = rw h refl

  next_arg-more :
      (c : ℕ) (text : List ℕ)
      → isspace c ≡ false
      → next_arg isspace (c ∷ text) ≡ (c ∷ (next_arg isspace text).0, (next_arg isspace text).1)
  unfolding next_arg
  next_arg-more c text h = rw h refl

  -- What the inner loop finds is the first word, and the rest holds the others.
  abbrev Splits : List ℕ → Type 0
  Splits [] = Unit
  Splits (c ∷ text) =
      (words (c ∷ text)
        ≡ (next_arg isspace (c ∷ text)).0 ∷ words_behind (next_arg isspace (c ∷ text)).1)
      × IsShorter (next_arg isspace (c ∷ text)).1 (length (c ∷ text))

  next_arg-nil : next_arg isspace [] ≡ ([], none)
  unfolding next_arg
  next_arg-nil = refl

  -- A character before the first word of a text, given what `words-next_arg` says of the text.
  attach-next_arg :
      (c : ℕ) (text : List ℕ)
      → Splits text
      → (attach c (words text)
          ≡ (c ∷ (next_arg isspace text).0) ∷ words_behind (next_arg isspace text).1)
        × IsShorter (next_arg isspace text).1 (suc (length text))
  attach-next_arg c [] splits = rw next_arg-nil (refl, tt)
  attach-next_arg c (d ∷ text) splits = (ap (attach c) splits.0, IsShorter-suc _ _ splits.1)

  next_arg-Splits : (text : List ℕ) → Splits text
  next_arg-Splits [] = tt
  next_arg-Splits (c ∷ text) = elim (Bool-cases (isspace c)) [
    | inl space ↦ rw (next_arg-space c text space, space) (refl, omega arith)
    | inr more ↦
        rw (next_arg-more c text more, more) (attach-next_arg c text (next_arg-Splits text))
  ]

  module _ (argv_len argbuf_len : ℕ) where
    push_to_argv-room :
        (text : List ℕ) (v : Vector)
        → length v.argv < argv_len
        → v.argbuf_index < argbuf_len
        → push_to_argv argv_len argbuf_len text v ≡ (Code.success, added text v)
    unfolding push_to_argv
    push_to_argv-room text v h k =
        let few : leb argv_len (length v.argv) ≡ false = ground arith in
        let low : leb argbuf_len v.argbuf_index ≡ false = ground arith in rw (few, low) refl

    -- The words `ws` are stored, and there is room for `more`.
    record HasRoom (v : Vector) (ws more : List (List ℕ)) : Type 0 where
      held : HasWords v.argbuf v.argbuf_index v.argv ws
      few : length v.argv + length more ≤ argv_len
      low : v.argbuf_index + bytes_of more ≤ argbuf_len

    -- The result stores all the words.
    abbrev Stores : Option (Code × Vector) → List (List ℕ) → Type 0
    Stores result ws =
        (v : Vector) × (result ≡ some (Code.success, v))
        × HasWords v.argbuf v.argbuf_index v.argv ws
        × (v.argbuf_index ≤ argbuf_len)

    pushed-Stores :
        (arg : List ℕ) (rest : Option (List ℕ)) (v : Vector) (ws : List (List ℕ))
        (go : List ℕ → Vector → Option (Code × Vector)) (n : ℕ)
        → ((text : List ℕ) (v' : Vector) (ws' : List (List ℕ))
            → length text < n
            → HasRoom v' ws' (words text)
            → Stores (go text v') (ws' ++ words text))
        → IsShorter rest n
        → HasRoom v ws (arg ∷ words_behind rest)
        → Stores
            (pushed isspace argv_len argbuf_len (push_to_argv argv_len argbuf_len arg v) rest go)
            (ws ++ arg ∷ words_behind rest)
    pushed-Stores arg none v ws go n ih shorter room =
        let push = push_to_argv-room arg v (omega (arith, room.few)) (omega (arith, room.low)) in
        (
          added arg v,
          rw push refl,
          HasWords-push v.argbuf v.argbuf_index v.argv ws arg room.held,
          omega (arith, room.low),
        )
    pushed-Stores arg (some text) v ws go n ih shorter room =
        let push = push_to_argv-room arg v (omega (arith, room.few)) (omega (arith, room.low)) in
        let (v', run, held, low) = ih text (added arg v) (ws ++ arg ∷ []) shorter (record {
          held = HasWords-push v.argbuf v.argbuf_index v.argv ws arg room.held;
          few = omega (arith, room.few, length-append v.argv (v.argbuf_index ∷ []));
          low = omega (arith, room.low);
        }) in
        (
          v',
          rw push run,
          subst (HasWords v'.argbuf v'.argbuf_index v'.argv)
              (append_assoc ws (arg ∷ []) (words text)) held,
          low,
        )

    push_args-Stores :
        (fuel : ℕ) (text : List ℕ) (v : Vector) (ws : List (List ℕ))
        → length text < fuel
        → HasRoom v ws (words text)
        → Stores (push_args isspace argv_len argbuf_len fuel text v) (ws ++ words text)
    unfolding push_args
    push_args-Stores zero text v ws h room = absurd (omega arith)
    push_args-Stores (suc fuel) [] v ws h room = (
      v,
      refl,
      subst (HasWords v.argbuf v.argbuf_index v.argv) (sym (append-nil ws)) room.held,
      omega (arith, room.low),
    )
    push_args-Stores (suc fuel) (c ∷ text) v ws h room =
        let (split, shorter) = next_arg-Splits (c ∷ text) in
        let (arg, rest) = next_arg isspace (c ∷ text) in
        subst
          (λ l. Stores (push_args isspace argv_len argbuf_len (suc fuel) (c ∷ text) v) (ws ++ l))
          (sym split)
          (pushed-Stores arg rest v ws (push_args isspace argv_len argbuf_len fuel)
            (length (c ∷ text))
            (λ text' v' ws' short room'. push_args-Stores fuel text' v' ws' (omega arith) room')
            shorter (subst (HasRoom v ws) split room))

    -- MakeArgVector, when argv and argbuf have room for the command and the words of its arguments,
    -- always returns: argv points to the command and then to each word in order, each with its zero
    -- inside the part of argbuf that is used.
    pub make_arg_vector-words :
        (command : List ℕ) (first_arg : Option (List ℕ)) (argbuf : ℕ → ℕ)
        → suc (length (words_behind first_arg)) ≤ argv_len
        → bytes_of (command ∷ words_behind first_arg) ≤ argbuf_len
        → (v : Vector) × (make_arg_vector isspace argv_len argbuf_len command first_arg argbuf
            ≡ some (Code.success, v))
          × HasWords v.argbuf v.argbuf_index v.argv (command ∷ words_behind first_arg)
          × (v.argbuf_index ≤ argbuf_len)
    unfolding make_arg_vector
    make_arg_vector-words command none argbuf h k =
        pushed-Stores command none (record { argv = []; argbuf = argbuf; argbuf_index = 0 }) []
          (λ text v. push_args isspace argv_len argbuf_len (length text + 1) text v) 0
          (λ text v ws short room. absurd (omega arith)) tt
          (record { held = tt; few = omega arith; low = omega arith })
    make_arg_vector-words command (some text) argbuf h k =
        pushed-Stores command (some text) (record { argv = []; argbuf = argbuf; argbuf_index = 0 })
          [] (λ text' v. push_args isspace argv_len argbuf_len (length text' + 1) text' v)
          (suc (length text))
          (λ text' v ws short room.
            push_args-Stores (length text' + 1) text' v ws (omega arith) room)
          (omega arith) (record { held = tt; few = omega arith; low = omega arith })
