-- ===== src/Io/Readline/Reentrant.antt =====
-- unp/unpv13e/server/readline_r.c, readline for a buffer of the caller's.
use cpplearn.Common.{
  ℕ, zero, suc, ◌+◌, ◌-◌, ◌≤◌, ◌<◌, ◌≡◌, inl, inr, refl, ap, ◌∙◌, Bool, true, false, [], ◌∷◌, ◌++◌,
  Bytes, length, if◌then◌else◌, ◌==◌, arith, Bool-cases, length-append,
}
use cpplearn.Io.Readline.{
  newline, Input, MyRead, byte, at_end, fault, my_read, after_my_read, Line, line, minus_one,
  readline_loop, readline,
}

-- my_read_r is the my_read of lib/readline.c, on the fields of Rline, which an Input stands for.
unfoldable pub after_my_read_r : (Bytes → Input → Line) → ℕ → Bytes → MyRead → Line
after_my_read_r next n stored (byte c s) =
    if c == newline then line n (stored ++ c ∷ []) s else next (stored ++ c ∷ []) s
after_my_read_r next n stored (at_end s) = if n == 1 then line 0 stored s else line n stored s
after_my_read_r next n stored (fault e s) = minus_one e s

unfoldable pub readline_r_loop : ℕ → ℕ → Bytes → Input → Line
readline_r_loop zero n stored s = line n stored s
readline_r_loop (suc rounds) n stored s =
    after_my_read_r (readline_r_loop rounds (n + 1)) n stored (my_read s)

-- `read_maxlen` is that of readline_rinit.
unfoldable pub readline_r : ℕ → Input → Line
readline_r maxlen s = readline_r_loop (maxlen - 1) 1 [] s

-- Whether a line ends with its newline.
abbrev pub is_whole : Bytes → Bool
is_whole [] = false
is_whole (c ∷ []) = c == newline
is_whole (c ∷ c' ∷ rest) = is_whole (c' ∷ rest)

abbrev pub count_r : Bytes → ℕ
count_r [] = 0
count_r (c ∷ rest) = if is_whole (c ∷ rest) then length (c ∷ rest) else length (c ∷ rest) + 1

-- The same line with the count of readline_r.
abbrev pub recount : Line → Line
recount (line n stored s) = line (count_r stored) stored s
recount (minus_one e s) = minus_one e s

is_whole-last : (xs : Bytes) (c : ℕ) → is_whole (xs ++ c ∷ []) ≡ (c == newline)
is_whole-last [] c = refl
is_whole-last (x ∷ []) c = refl
is_whole-last (x ∷ x' ∷ xs) c = is_whole-last (x' ∷ xs) c

count_r-last :
    (xs : Bytes) (c : ℕ)
    → count_r (xs ++ c ∷ []) ≡ (if c == newline then length xs + 1 else length xs + 2)
count_r-last [] c = refl
count_r-last (x ∷ xs) c = rw (is_whole-last (x ∷ xs) c, length-append xs (c ∷ [])) (ground arith)

count_r-end :
    (c : ℕ) (xs : Bytes) → is_whole (c ∷ xs) ≡ false → count_r (c ∷ xs) ≡ length (c ∷ xs) + 1
count_r-end c xs e = rw e refl

-- In the loop no newline has been stored, and something has if no round is left.
record IsPart (rounds n : ℕ) (stored : Bytes) : Type 0 where
  at : n ≡ length stored + 1
  whole : is_whole stored ≡ false
  some_left : 0 < length stored + rounds

IsPart-next :
    (k n c : ℕ) (stored : Bytes)
    → IsPart (suc k) n stored
    → (c == newline) ≡ false
    → IsPart k (n + 1) (stored ++ c ∷ [])
IsPart-next k n c stored h other = record {
  at = omega (arith, h.at, length-append stored (c ∷ []));
  whole = is_whole-last stored c ∙ other;
  some_left = omega (arith, length-append stored (c ∷ []));
}

at_end-recount :
    (n : ℕ) (stored : Bytes) (s : Input)
    → n ≡ length stored + 1
    → is_whole stored ≡ false
    → (if n == 1 then line 0 stored s else line n stored s) ≡ line (count_r stored) stored s
at_end-recount n [] s e part = let one : (n == 1) ≡ true = ground (arith, e) in rw one refl
at_end-recount n (c ∷ xs) s e part =
    let more : (n == 1) ≡ false = ground (arith, e) in
    rw (more, count_r-end c xs part) (ap (λ m. line m (c ∷ xs) s) e)

after_my_read-recount :
    (k n : ℕ) (stored : Bytes) (next next' : Bytes → Input → Line) (r : MyRead)
    → IsPart (suc k) n stored
    → ((c : ℕ) (s : Input)
        → (c == newline) ≡ false
        → next (stored ++ c ∷ []) s ≡ recount (next' (stored ++ c ∷ []) s))
    → after_my_read_r next n stored r ≡ recount (after_my_read next' n stored r)
unfolding after_my_read after_my_read_r
after_my_read-recount k n stored next next' (byte c s) h ih = elim (Bool-cases (c == newline)) [
  | inl e ↦ rw (e, count_r-last stored c, e) (ap (λ m. line m (stored ++ c ∷ []) s) h.at)
  | inr e ↦ rw e (ih c s e)
]
after_my_read-recount k n stored next next' (at_end s) h ih = at_end-recount n stored s h.at h.whole
after_my_read-recount k n stored next next' (fault e s) h ih = refl

readline_loop-recount :
    (k n : ℕ) (stored : Bytes) (s : Input)
    → IsPart k n stored
    → readline_r_loop k n stored s ≡ recount (readline_loop k n stored s)
unfolding readline_r_loop readline_loop
readline_loop-recount zero n [] s h = absurd (omega (arith, h.some_left))
readline_loop-recount zero n (c ∷ xs) s h =
    rw (count_r-end c xs h.whole) (ap (λ m. line m (c ∷ xs) s) h.at)
readline_loop-recount (suc k) n stored s h =
    after_my_read-recount k n stored (readline_r_loop k (n + 1)) (readline_loop k (n + 1))
      (my_read s) h
      (λ c s' e.
        readline_loop-recount k (n + 1) (stored ++ c ∷ []) s' (IsPart-next k n c stored h e))

-- With room for at least one byte and the null byte, readline_r stores what readline stores, leaves
-- the same bytes for the next call and fails where readline fails; it returns the number of bytes of
-- a line that ends with a newline, one more for a line that does not, also at the end of the file,
-- and 0 where nothing is left.
pub readline_r-readline :
    (maxlen : ℕ) (s : Input) → 2 ≤ maxlen → readline_r maxlen s ≡ recount (readline maxlen s)
unfolding readline_r readline
readline_r-readline maxlen s room =
    readline_loop-recount (maxlen - 1) 1 [] s
      (record { at = refl; whole = refl; some_left = omega (arith, room) })
