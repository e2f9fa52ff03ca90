-- ===== src/Terminal.antt =====
-- kernel/terminal.cpp: the arguments of a command. A text is the list of its bytes, without the zero
-- at its end; `isspace` is the C library's function and stands as a parameter. argv is the list of the
-- indices of the arguments in argbuf, and argc is its length.
pub mod Loading
pub mod Buffer
pub mod Pipe
pub mod Arguments
mod Tests
use min_os.Common.{
  ℕ, zero, suc, ◌+◌, Bool, true, false, Option, none, some, List, [], ◌∷◌, ◌++◌, leb, if◌then◌else◌,
  ◌||◌, length, put,
}
use min_os.Error.{Code, fails}

-- strcpy to a buffer.
unfoldable pub strcpy : (text : List ℕ) (index : ℕ) → (ℕ → ℕ) → ℕ → ℕ
strcpy [] index buf = put index 0 buf
strcpy (c ∷ text) index buf = put index c (strcpy text (suc index) buf)

pub record Vector : Type 0 where
  pub argv : List ℕ
  pub argbuf : ℕ → ℕ
  pub argbuf_index : ℕ

-- push_to_argv.
unfoldable pub push_to_argv : (argv_len argbuf_len : ℕ) → List ℕ → Vector → Code × Vector
unfolding strcpy
push_to_argv argv_len argbuf_len text v =
    if leb argv_len (length v.argv) || leb argbuf_len v.argbuf_index then (Code.full, v) else (
      Code.success,
      record {
        argv = v.argv ++ v.argbuf_index ∷ [];
        argbuf = strcpy text v.argbuf_index v.argbuf;
        argbuf_index = v.argbuf_index + (length text + 1);
      },
    )

module _ (isspace : ℕ → Bool) where
  -- The inner loop of MakeArgVector: the argument, and what follows the space behind it.
  unfoldable pub next_arg : List ℕ → List ℕ × Option (List ℕ)
  next_arg [] = ([], none)
  next_arg (c ∷ text) =
      let (arg, rest) = next_arg text in if isspace c then ([], some text) else (c ∷ arg, rest)

  module _ (argv_len argbuf_len : ℕ) where
    -- What follows a call of push_to_argv.
    abbrev pub pushed :
        Code × Vector
        → (rest : Option (List ℕ)) → (List ℕ → Vector → Option (Code × Vector))
        → Option (Code × Vector)
    pushed (err, v) none go = some (err, v)
    pushed (err, v) (some text) go = if fails err then some (err, v) else go text v

    -- The outer loop of MakeArgVector.
    unfoldable pub push_args : (fuel : ℕ) → List ℕ → Vector → Option (Code × Vector)
    unfolding push_to_argv next_arg
    push_args zero text v = none
    push_args (suc fuel) [] v = some (Code.success, v)
    push_args (suc fuel) (c ∷ text) v =
        let (arg, rest) = next_arg (c ∷ text) in
        pushed (push_to_argv argv_len argbuf_len arg v) rest (push_args fuel)

    -- MakeArgVector; `first_arg` is none for nullptr.
    unfoldable pub make_arg_vector :
        (command : List ℕ)
        → (first_arg : Option (List ℕ)) → (argbuf : ℕ → ℕ) → Option (Code × Vector)
    unfolding push_args
    make_arg_vector command first_arg argbuf =
        pushed
          (push_to_argv argv_len argbuf_len command
            (record { argv = []; argbuf = argbuf; argbuf_index = 0 }))
          first_arg (λ text v. push_args (length text + 1) text v)
