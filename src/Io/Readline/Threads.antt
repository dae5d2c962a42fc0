-- ===== src/Io/Readline/Threads.antt =====
-- unp/unpv13e/threads/readline.c: readline with a buffer for each thread. Its my_read and its loop are
-- those of lib/readline.c.
use cpplearn.Common.{
  ℕ, ◌≡◌, inl, inr, refl, ap, ◌∙◌, true, false, Option, none, some, List, [], ◌∷◌, Bytes,
  if◌then◌else◌, ◌==◌, arith, Bool-cases,
}
use cpplearn.Io.Events.{Event}
use cpplearn.Io.Readline.{Input, Line, line, minus_one, readline}

-- The value of rl_key for each thread, and what each descriptor does next.
pub record Process : Type 0 where
  pub tsd : ℕ → Option Bytes
  pub files : ℕ → List Event

abbrev pub update {ℓ} : {A : Type ℓ} → (ℕ → A) → ℕ → A → ℕ → A
update f i v j = if j == i then v else f j

-- pthread_getspecific; a thread without an Rline gets an empty one.
abbrev pub rline : Option Bytes → Bytes
rline none = []
rline (some buffered) = buffered

abbrev pub left_by : Line → Input
left_by (line n stored s) = s
left_by (minus_one e s) = s

-- A call of readline by a thread for a descriptor.
unfoldable pub call_readline : (thread fd maxlen : ℕ) → Process → Line × Process
call_readline thread fd maxlen p =
    let l = readline maxlen (record { buffered = rline (p.tsd thread); events = p.files fd }) in
    (
      l,
      record {
        tsd = update p.tsd thread (some (left_by l).buffered);
        files = update p.files fd (left_by l).events;
      },
    )

-- Calls of several threads, each with its `maxlen`, in the order in which they happen; `fd_of` is the
-- descriptor of a thread.
unfoldable pub call_each : (ℕ → ℕ) → List (ℕ × ℕ) → Process → List (ℕ × Line)
call_each fd_of [] p = []
call_each fd_of ((thread, maxlen) ∷ calls) p =
    let (l, p') = call_readline thread (fd_of thread) maxlen p in
    (thread, l) ∷ call_each fd_of calls p'

-- What one thread passes and gets.
abbrev pub own {ℓ} : {A : Type ℓ} → ℕ → List (ℕ × A) → List A
own t [] = []
own t ((thread, x) ∷ rest) = if thread == t then x ∷ own t rest else own t rest

-- The calls of lib/readline.c for one descriptor, one behind the other.
abbrev pub alone : List ℕ → Input → List Line
alone [] s = []
alone (maxlen ∷ rest) s = let l = readline maxlen s in l ∷ alone rest (left_by l)

abbrev pub input_of : (ℕ → ℕ) → ℕ → Process → Input
input_of fd_of t p = record { buffered = rline (p.tsd t); events = p.files (fd_of t) }

module _ (fd_of : ℕ → ℕ) (apart : (t u : ℕ) → fd_of t ≡ fd_of u → t ≡ u) where
  input_same :
      (t u maxlen : ℕ) (p : Process)
      → (u == t) ≡ true
      → input_of fd_of t (call_readline u (fd_of u) maxlen p).1
        ≡ left_by (readline maxlen (input_of fd_of t p))
  unfolding call_readline
  input_same t u maxlen p e =
      let same : u ≡ t = ground (arith, e) in
      let here : (t == t) ≡ true = ground arith in
      let there : (fd_of t == fd_of t) ≡ true = ground arith in rw (same, here, there) refl

  line_same :
      (t u maxlen : ℕ) (p : Process)
      → (u == t) ≡ true
      → (call_readline u (fd_of u) maxlen p).0 ≡ readline maxlen (input_of fd_of t p)
  unfolding call_readline
  line_same t u maxlen p e = let same : u ≡ t = ground (arith, e) in rw same refl

  input_other :
      (t u maxlen : ℕ) (p : Process)
      → (u == t) ≡ false
      → input_of fd_of t (call_readline u (fd_of u) maxlen p).1 ≡ input_of fd_of t p
  unfolding call_readline
  input_other t u maxlen p e =
      let here : (t == u) ≡ false = ground (arith, e) in
      let there : (fd_of t == fd_of u) ≡ false = elim (Bool-cases (fd_of t == fd_of u)) [
        | inl k ↦ absurd (ground (arith, e, apart t u (ground (arith, k))))
        | inr k ↦ k
      ] in
      rw (here, there) refl

  -- Threads that read from different descriptors do not disturb each other: whatever order their
  -- calls have, each thread gets the lines that readline gives for its descriptor alone.
  pub call_each-alone :
      (t : ℕ) (calls : List (ℕ × ℕ)) (p : Process)
      → own t (call_each fd_of calls p) ≡ alone (own t calls) (input_of fd_of t p)
  unfolding call_each
  call_each-alone t [] p = refl
  call_each-alone t ((u, maxlen) ∷ calls) p =
      let ih = call_each-alone t calls (call_readline u (fd_of u) maxlen p).1 in
      elim (Bool-cases (u == t)) [
        | inl e ↦ rw e (
            ap (λ l. l ∷ own t (call_each fd_of calls (call_readline u (fd_of u) maxlen p).1))
              (line_same t u maxlen p e)
            ∙ ap (λ ls. readline maxlen (input_of fd_of t p) ∷ ls)
                (ih ∙ ap (alone (own t calls)) (input_same t u maxlen p e)))
        | inr e ↦ rw e (ih ∙ ap (alone (own t calls)) (input_other t u maxlen p e))
      ]
