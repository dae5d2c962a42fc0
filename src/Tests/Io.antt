-- ===== src/Tests/Io.antt =====
-- readn, writen and readline at concrete inputs.
use cpplearn.Common.{
  ℕ, ◌+◌, ◌≡◌, refl, none, some, List, [], ◌∷◌, codes, if◌then◌else◌, ◌==◌, arith,
}
use cpplearn.Io.Events.{Event, chunk, interrupted, broken, ending, read}
use cpplearn.Io.Readn.{returned, readn, Reads, readn-Reads}
use cpplearn.Io.Writen.{accepts, signalled, fails, all_written, writen, Writes, writen-Writes}
use cpplearn.Io.Readline.{Input, readline, pending, line}
use cpplearn.Io.Readline.Reentrant.{readline_r, recount, readline_r-readline}
use cpplearn.Io.Readline.Threads.{Process, call_each, own, alone, input_of, call_each-alone}
use cpplearn.Io.Readline.Lines.{Lines, readline-Lines}

abbrev arriving : List Event
arriving = chunk (codes "ab") ∷ interrupted ∷ chunk (codes "c\nd") ∷ broken 104 ∷ []

abbrev fresh : Input
fresh = record { buffered = []; events = arriving }

read_three :
    readn 3 arriving ≡ some (returned (codes "abc") (chunk (codes "\nd") ∷ broken 104 ∷ []))
unfolding readn
read_three = refl

write_in_parts :
    writen (codes "abcd") (accepts 1 ∷ signalled ∷ accepts 2 ∷ []) ≡ all_written (codes "abcd")
unfolding writen
write_in_parts = refl

first_line :
    readline 80 fresh
    ≡ line 4 (codes "abc\n") (record { buffered = codes "d"; events = broken 104 ∷ [] })
unfolding readline read
first_line = refl

-- A line that does not fit: three bytes are stored, and four are reported.
long_line :
    readline 4 fresh
    ≡ line 4 (codes "abc") (record { buffered = codes "\nd"; events = broken 104 ∷ [] })
unfolding readline read
long_line = refl

readn-Reads_example : Reads 3 [] arriving (readn 3 arriving)
readn-Reads_example = readn-Reads 3 arriving

writen-Writes_example :
    Writes
      (codes "abcd")
      (accepts 1 ∷ signalled ∷ fails 32 ∷ [])
      (writen (codes "abcd") (accepts 1 ∷ signalled ∷ fails 32 ∷ []))
writen-Writes_example = writen-Writes (codes "abcd") (accepts 1 ∷ signalled ∷ fails 32 ∷ [])

readline-Lines_example : Lines 79 1 [] (pending fresh) (ending (fresh.events)) (readline 80 fresh)
readline-Lines_example = readline-Lines 80 fresh (omega arith)

readline_r-readline_example : readline_r 80 fresh ≡ recount (readline 80 fresh)
readline_r-readline_example = readline_r-readline 80 fresh (omega arith)

-- Two threads read from descriptors of their own, in turns.
abbrev two_files : Process
two_files = record {
  tsd = λ t. none;
  files = λ fd. if fd == 4 then chunk (codes "a\nb\n") ∷ [] else chunk (codes "c") ∷ [];
}

two_files-apart : (t u : ℕ) → t + 4 ≡ u + 4 → t ≡ u
two_files-apart t u e = omega (arith, e)

call_each-alone_example :
    own 0 (call_each (λ t. t + 4) ((0, 80) ∷ (1, 80) ∷ (0, 80) ∷ []) two_files)
    ≡ alone (80 ∷ 80 ∷ []) (input_of (λ t. t + 4) 0 two_files)
call_each-alone_example =
    call_each-alone (λ t. t + 4) two_files-apart 0 ((0, 80) ∷ (1, 80) ∷ (0, 80) ∷ []) two_files
