-- ===== src/Io/Writen.antt =====
-- unp/unpv13e/lib/writen.c over a list of what the calls of write do.
use cpplearn.Common.{
  min, ℕ, zero, suc, ◌<◌, ◌≡◌, ◌≢◌, refl, sym, ap, ◌∙◌, Option, none, some, List, [], ◌∷◌, ◌++◌,
  append_assoc, append-nil, Bytes, length, take, drop, if◌then◌else◌, ◌==◌, All, arith,
  take-append-drop,
}

-- The number of bytes that a call would take, a signal (EINTR), another errno. Behind the last
-- event a call takes all.
pub data WriteEvent : Type 0 where
  accepts : ℕ → WriteEvent
  signalled : WriteEvent
  fails : ℕ → WriteEvent

-- What `write` returns: a count, or -1 with EINTR or another errno.
pub data WriteResult : Type 0 where
  wrote : ℕ → WriteResult
  eintr : WriteResult
  error : ℕ → WriteResult

-- `write(fd, ptr, n)` takes no more than `n` bytes.
unfoldable pub write : ℕ → WriteEvent → WriteResult
write n (accepts k) = wrote (min k n)
write n signalled = eintr
write n (fails e) = error e

-- The bytes that the descriptor has got; a failure has no errno of its own if write returned 0.
pub data Written : Type 0 where
  all_written : Bytes → Written
  minus_one : Option ℕ → Bytes → Written

-- `left` are the bytes from `ptr` on, `nleft` in number; `out` are those written.
writen_loop : List WriteEvent → Bytes → Bytes → Written
writen_loop [] left out = all_written (out ++ left)
writen_loop (event ∷ rest) left out =
    let again : Written = elim (write (length left) event) [
      | wrote n ↦
          let more = writen_loop rest (drop n left) (out ++ take n left) in
          if n == 0 then minus_one none out else more
      | eintr ↦ writen_loop rest left out
      | error e ↦ minus_one (some e) out
    ] in
    if length left == 0 then all_written out else again

unfoldable pub writen : Bytes → List WriteEvent → Written
unfolding writen_loop write
writen bytes events = writen_loop events bytes []

-- The events at which a call writes something or is repeated.
abbrev pub Harmless : WriteEvent → Type 0
Harmless (accepts k) = 0 < k
Harmless signalled = Unit
Harmless (fails e) = ⊥

-- Everything is written in order; or some proper beginning is, and some event was to blame.
abbrev pub Writes : Bytes → List WriteEvent → Written → Type 0
Writes bytes events (all_written out) = out ≡ bytes
Writes bytes events (minus_one e out) =
    ((left : Bytes) × (out ++ left ≡ bytes) × (left ≢ [])) × (¬ All Harmless events)

Writes-next :
    (bytes : Bytes) (event : WriteEvent) (rest : List WriteEvent) (w : Written)
    → Writes bytes rest w
    → Writes bytes (event ∷ rest) w
Writes-next bytes event rest (all_written out) h = h
Writes-next bytes event rest (minus_one e out) h = (h.0, λ harmless. h.1 harmless.1)

writen_loop-nil :
    (events : List WriteEvent) (out : Bytes) → writen_loop events [] out ≡ all_written out
unfolding writen_loop
writen_loop-nil [] out = rw append-nil
writen_loop-nil (event ∷ rest) out = refl

module _ (rest : List WriteEvent) (b : ℕ) (left out : Bytes) where
  writen_loop-accepts :
      (k : ℕ)
      → let m = min (suc k) (length (b ∷ left)) in
        writen_loop (accepts (suc k) ∷ rest) (b ∷ left) out
        ≡ writen_loop rest (drop m (b ∷ left)) (out ++ take m (b ∷ left))
  unfolding writen_loop write
  writen_loop-accepts k = ground arith

  writen_loop-refuses : writen_loop (accepts 0 ∷ rest) (b ∷ left) out ≡ minus_one none out
  unfolding writen_loop write
  writen_loop-refuses = ground arith

  writen_loop-signalled :
      writen_loop (signalled ∷ rest) (b ∷ left) out ≡ writen_loop rest (b ∷ left) out
  unfolding writen_loop write
  writen_loop-signalled = ground arith

  writen_loop-fails : (e : ℕ) → writen_loop (fails e ∷ rest) (b ∷ left) out ≡ minus_one (some e) out
  unfolding writen_loop write
  writen_loop-fails e = ground arith

writen_loop-Writes :
    (events : List WriteEvent) (left out : Bytes)
    → Writes (out ++ left) events (writen_loop events left out)
unfolding writen_loop
writen_loop-Writes [] left out = refl
writen_loop-Writes (event ∷ rest) [] out = sym (append-nil out)
writen_loop-Writes (accepts zero ∷ rest) (b ∷ left) out =
    rw (writen_loop-refuses rest b left out)
      (((b ∷ left), refl, cc), λ harmless. absurd (omega arith))
writen_loop-Writes (accepts (suc k) ∷ rest) (b ∷ left) out =
    let m = min (suc k) (length (b ∷ left)) in
    let ih = writen_loop-Writes rest (drop m (b ∷ left)) (out ++ take m (b ∷ left)) in
    let whole =
      append_assoc out (take m (b ∷ left)) (drop m (b ∷ left))
      ∙ ap (λ bytes. out ++ bytes) (take-append-drop m (b ∷ left)) in
    rw (writen_loop-accepts rest b left out k) (
      Writes-next (out ++ b ∷ left) (accepts (suc k)) rest
        (writen_loop rest (drop m (b ∷ left)) (out ++ take m (b ∷ left))) (rw whole at ih))
writen_loop-Writes (signalled ∷ rest) (b ∷ left) out = rw (writen_loop-signalled rest b left out) (
    Writes-next (out ++ b ∷ left) signalled rest (writen_loop rest (b ∷ left) out)
      (writen_loop-Writes rest (b ∷ left) out))
writen_loop-Writes (fails e ∷ rest) (b ∷ left) out =
    rw (writen_loop-fails rest b left out e) (((b ∷ left), refl, cc), λ harmless. harmless.0)

-- writen writes all the bytes in order, however the calls cut them and whatever signals come; it
-- fails only if a call wrote nothing or failed, and then a proper beginning of the bytes is written.
pub writen-Writes :
    (bytes : Bytes) (events : List WriteEvent) → Writes bytes events (writen bytes events)
unfolding writen
writen-Writes bytes events = writen_loop-Writes events bytes []
