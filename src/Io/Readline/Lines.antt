-- ===== src/Io/Readline/Lines.antt =====
-- unp/unpv13e/lib/readline.c: what readline returns.
use cpplearn.Common.{
  ℕ, zero, suc, ◌+◌, ◌-◌, ◌≤◌, ◌<◌, ◌≡◌, ◌⊎◌, inl, inr, refl, true, false, List, [], ◌∷◌, ◌++◌,
  append_assoc, append-nil, Bytes, length, take, drop, if◌then◌else◌, ◌==◌, leb, arith, Bool-cases,
  length-drop, take-append-drop,
}
use cpplearn.Io.Events.{
  Event, chunk, interrupted, broken, read, End, closed, failure, stream, ending, stream-chunk,
  read-more,
}
use cpplearn.Io.Readline.{
  max_line, newline, Input, MyRead, byte, at_end, fault, refill, my_read_from, my_read,
  after_my_read, Line, line, minus_one, readline_loop, readline, pending, line_of, is_complete,
  is_cut,
}

-- The next byte of the stream, or how it ends.
abbrev Gives : Bytes → End → MyRead → Type 0
Gives bytes end (byte c s) = (bytes ≡ c ∷ pending s) × (ending s.events ≡ end)
Gives bytes end (at_end s) = (bytes ≡ []) × (end ≡ closed)
Gives bytes end (fault e s) = (bytes ≡ []) × (end ≡ failure e)

Gives-part :
    (n b : ℕ) (bytes : Bytes) (rest : List Event)
    → n < length bytes
    → Gives
        (b ∷ (bytes ++ stream rest))
        (ending rest)
        (byte b (record { buffered = take n bytes; events = chunk (drop n bytes) ∷ rest }))
Gives-part n b bytes rest h =
    let (first, last) = stream-chunk (drop n bytes) rest (omega (arith, length-drop n bytes)) in
    (
      rw (
        first,
        ← append_assoc (take n bytes) (drop n bytes) (stream rest),
        take-append-drop n bytes,
      ),
      last,
    )

module _ (b : ℕ) (bytes : Bytes) (rest : List Event) where
  refill-fits :
      length bytes ≤ 4095
      → refill (chunk (b ∷ bytes) ∷ rest) ≡ byte b (record { buffered = bytes; events = rest })
  unfolding refill read
  refill-fits h = ground arith

  refill-more :
      4095 < length bytes
      → refill (chunk (b ∷ bytes) ∷ rest)
        ≡ byte b (record { buffered = take 4095 bytes; events = chunk (drop 4095 bytes) ∷ rest })
  unfolding refill
  refill-more h =
      let cut = read-more max_line (b ∷ bytes) rest (omega arith) in rw (cut, refill) (rw cut)

refill-Gives : (events : List Event) → Gives (stream events) (ending events) (refill events)
unfolding refill read
refill-Gives [] = (refl, refl)
refill-Gives (chunk [] ∷ rest) = ground arith
refill-Gives (chunk (b ∷ bytes) ∷ rest) = elim (Bool-cases (leb (length bytes) 4095)) [
  | inl fits ↦ rw (refill-fits b bytes rest (ground arith)) (refl, refl)
  | inr more ↦
      rw (refill-more b bytes rest (ground arith)) (Gives-part 4095 b bytes rest (ground arith))
]
refill-Gives (interrupted ∷ rest) = refill-Gives rest
refill-Gives (broken e ∷ rest) = (refl, refl)

my_read-Gives :
    (buffered : Bytes) (events : List Event)
    → Gives (buffered ++ stream events) (ending events) (my_read_from buffered events)
unfolding my_read_from
my_read-Gives [] events = refill-Gives events
my_read-Gives (b ∷ bytes) events = (refl, refl)

-- A line, or the end of the stream's bytes, or its failure.
abbrev pub Lines : ℕ → ℕ → Bytes → Bytes → End → Line → Type 0
Lines k n stored bytes end (line count out s) =
    (out ≡ stored ++ line_of k bytes)
    × (count ≡ n - 1 + length (line_of k bytes) + (if is_cut k bytes then 1 else 0))
    × (((is_complete k bytes ≡ true)
          × (pending s ≡ drop (length (line_of k bytes)) bytes)
          × (ending s.events ≡ end))
        ⊎ ((is_complete k bytes ≡ false) × (end ≡ closed)))
Lines k n stored bytes end (minus_one e s) = (is_complete k bytes ≡ false) × (end ≡ failure e)

Lines-byte :
    (k n c : ℕ) (stored bytes : Bytes) (end : End) (l : Line)
    → 0 < n
    → (c == newline) ≡ false
    → Lines k (n + 1) (stored ++ c ∷ []) bytes end l
    → Lines (suc k) n stored (c ∷ bytes) end l
Lines-byte k n c stored bytes end (line count out s) pos other h =
    ground (arith, append_assoc stored (c ∷ []) (line_of k bytes))
Lines-byte k n c stored bytes end (minus_one e s) pos other h = ground arith

Lines-newline :
    (k n c : ℕ) (stored : Bytes) (s : Input)
    → 0 < n
    → (c == newline) ≡ true
    → Lines (suc k) n stored (c ∷ pending s) (ending s.events) (line n (stored ++ c ∷ []) s)
Lines-newline k n c stored s pos same = ground arith

after_my_read-Lines :
    (k n : ℕ) (stored bytes : Bytes) (end : End) (next : Bytes → Input → Line) (r : MyRead)
    → 0 < n
    → Gives bytes end r
    → ((out : Bytes) (s : Input) → Lines k (n + 1) out (pending s) (ending s.events) (next out s))
    → Lines (suc k) n stored bytes end (after_my_read next n stored r)
unfolding after_my_read
after_my_read-Lines k n stored bytes end next (byte c s) pos g ih =
    elim (Bool-cases (c == newline)) [
      | inl same ↦ rw (g.0, same, ← g.1) (Lines-newline k n c stored s pos same)
      | inr other ↦
          rw (g.0, other, ← g.1)
            (Lines-byte k n c stored (pending s) (ending s.events) (next (stored ++ c ∷ []) s) pos
              other (ih (stored ++ c ∷ []) s))
    ]
after_my_read-Lines k n stored bytes end next (at_end s) pos g ih =
    ground (arith, append-nil stored)
after_my_read-Lines k n stored bytes end next (fault e s) pos g ih = ground arith

readline_loop-Lines :
    (k n : ℕ) (stored : Bytes) (s : Input)
    → 0 < n
    → Lines k n stored (pending s) (ending s.events) (readline_loop k n stored s)
unfolding readline_loop my_read
readline_loop-Lines zero n stored s pos = ground (arith, append-nil stored)
readline_loop-Lines (suc k) n stored s pos =
    after_my_read-Lines k n stored (pending s) (ending s.events) (readline_loop k (n + 1))
      (my_read s) pos (my_read-Gives s.buffered s.events)
      (λ out s'. readline_loop-Lines k (n + 1) out s' (omega arith))

-- readline, for a buffer of at least one byte and whatever chunks and signals come: the bytes stored
-- are the next line of the stream, of at most `maxlen - 1` bytes, and the other bytes are kept for
-- the next call; at the end of the stream they are what is left of it; -1 is returned exactly where
-- the stream fails inside a line. The value returned is their number, but one more if the line is
-- cut off at `maxlen - 1` bytes.
pub readline-Lines :
    (maxlen : ℕ) (s : Input)
    → 0 < maxlen
    → Lines (maxlen - 1) 1 [] (pending s) (ending s.events) (readline maxlen s)
unfolding readline
readline-Lines maxlen s pos = readline_loop-Lines (maxlen - 1) 1 [] s (omega arith)
