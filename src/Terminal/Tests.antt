-- ===== src/Terminal/Tests.antt =====
-- MakeArgVector of kernel/terminal.cpp on the line `ls a b`.
use min_os.Common.{List, ℕ, ◌≤◌, ◌≡◌, refl, Bool, false, some, [], ◌∷◌, ◌==◌, arith}
use min_os.Error.{Code}
use min_os.Terminal.{Vector, make_arg_vector}
use min_os.Terminal.Buffer.{HasWords}
use min_os.Terminal.Pipe.{Pipe, write_pipe, read_pipe}
use min_os.Terminal.Pipe.Stream.{stream, IsOpen, Takes, write_pipe-read_pipe}
use min_os.Terminal.Arguments.{words, make_arg_vector-words}

abbrev is_blank : ℕ → Bool
is_blank c = c == 32

make_arg_vector-words_example :
    (v : Vector) × (make_arg_vector is_blank 32 128
        (108 ∷ 115 ∷ [])
        (some (97 ∷ 32 ∷ 98 ∷ []))
        (λ i. 0)
      ≡ some (Code.success, v))
    × HasWords v.argbuf v.argbuf_index v.argv ((108 ∷ 115 ∷ []) ∷ (97 ∷ []) ∷ (98 ∷ []) ∷ [])
    × (v.argbuf_index ≤ 128)
make_arg_vector-words_example =
    make_arg_vector-words is_blank 32 128 (108 ∷ 115 ∷ []) (some (97 ∷ 32 ∷ 98 ∷ [])) (λ i. 0)
      (omega arith) (omega arith)

-- Two blanks in a row make an empty argument.
empty_argument : words is_blank (97 ∷ 32 ∷ 32 ∷ 98 ∷ []) ≡ (97 ∷ []) ∷ [] ∷ (98 ∷ []) ∷ []
empty_argument = refl

-- A pipe with a byte that has not been read, and twenty bytes more.
abbrev used_pipe : Pipe
used_pipe = record { bytes = 9 ∷ []; closed = false; messages = [] }

abbrev twenty : List ℕ
twenty =
    0 ∷ 1 ∷ 2 ∷ 3 ∷ 4 ∷ 5 ∷ 6 ∷ 7 ∷ 8 ∷ 9 ∷ 10 ∷ 11 ∷ 12 ∷ 13 ∷ 14 ∷ 15 ∷ 16 ∷ 17 ∷ 18 ∷ 19 ∷ []

write_pipe-read_pipe_example :
    (p' : Pipe) × (write_pipe twenty used_pipe ≡ some p')
    × (stream p' ≡ 9 ∷ twenty)
    × Takes 5 (read_pipe 5 p') (9 ∷ twenty)
unfolding stream IsOpen
write_pipe-read_pipe_example =
    write_pipe-read_pipe used_pipe twenty 5 refl tt (omega arith) (omega arith)
