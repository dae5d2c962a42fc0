-- ===== src/Tests/Web.antt =====
-- The parallel file reader at concrete inputs.
use cpplearn.Common.{ℕ, zero, suc, ◌≡◌, refl, sym, Option, none, some, List, [], ◌∷◌, arith}
use cpplearn.Web.{
  asleep, connecting, done, joined, scanning, Web, file_at, set_file, find_file, start,
  start_thread, set_tid, main_at, main_step, thread_step, Step, by_main, by_thread, Run, still,
  then_step,
}
use cpplearn.Web.Deadlock.{IsJoining, Run-IsJoining}
use cpplearn.Web.Progress.{Goes, Run-Goes}

-- The steps by number: 0 is main, and suc i the thread of file i.
abbrev one_step : ℕ → Web → Option Web
one_step zero s = main_step s
one_step (suc i) s = thread_step i s

abbrev follow : List ℕ → Option Web → Option Web
follow [] o = o
follow (k ∷ rest) none = none
follow (k ∷ rest) (some s) = follow rest (one_step k s)

-- Two files at a time: main starts both threads and goes to sleep; the first is counted, the second has set F_DONE;
-- main wakes up, joins the first and comes to the second with the mutex held.
abbrev joining : Web
joining = record {
  files = joined ∷ done ∷ [];
  threads = 0 ∷ 1 ∷ [];
  f_tid = set_tid (set_tid (λ i. 0) 0 0) 1 1;
  maxnconn = 2;
  nconn = 1;
  nlefttoconn = 0;
  nlefttoread = 1;
  ndone = 0;
  main = scanning 1;
}

abbrev schedule : List ℕ
schedule = 0 ∷ 0 ∷ 0 ∷ 0 ∷ 0 ∷ 1 ∷ 1 ∷ 1 ∷ 2 ∷ 2 ∷ 0 ∷ 0 ∷ []

follow-none : (l : List ℕ) (u : Web) → follow l none ≡ some u → ⊥
follow-none [] u e = cc
follow-none (k ∷ rest) u e = cc

Step-of : (k : ℕ) (t t' : Web) → one_step k t ≡ some t' → Step t t'
Step-of zero t t' e = by_main t t' e
Step-of (suc i) t t' e = by_thread i t t' e

Run-next :
    (s t u : Web) (k : ℕ) (rest : List ℕ) (o : Option Web)
    → ((t' : Web) → Run s t' → follow rest (some t') ≡ some u → Run s u)
    → Run s t
    → one_step k t ≡ o
    → follow rest o ≡ some u
    → Run s u
Run-next s t u k rest none go run m e = absurd (follow-none rest u e)
Run-next s t u k rest (some t') go run m e = go t' (then_step t t' run (Step-of k t t' m)) e

Run-of : (l : List ℕ) (s t u : Web) → Run s t → follow l (some t) ≡ some u → Run s u
Run-of [] s t u run e = let same : t ≡ u = ground arith in rw (sym same) run
Run-of (k ∷ rest) s t u run e =
    Run-next s t u k rest (one_step k t) (λ t' r e'. Run-of rest s t' u r e') run refl e

joining-IsJoining : IsJoining 1 joining
unfolding file_at
joining-IsJoining = record { at = refl; phase = refl }

Run-IsJoining_example : IsJoining 1 joining
Run-IsJoining_example = Run-IsJoining 1 joining joining still joining-IsJoining

-- Main has started both threads and sleeps.
abbrev sleeping : Web
sleeping = record {
  files = connecting ∷ connecting ∷ [];
  threads = 0 ∷ 1 ∷ [];
  f_tid = set_tid (set_tid (λ i. 0) 0 0) 1 1;
  maxnconn = 2;
  nconn = 2;
  nlefttoconn = 0;
  nlefttoread = 2;
  ndone = 0;
  main = asleep;
}

to_sleeping : Run (start 2 2) sleeping
unfolding start main_step main_at start_thread find_file set_file
to_sleeping = Run-of (0 ∷ 0 ∷ 0 ∷ 0 ∷ 0 ∷ []) (start 2 2) (start 2 2) sleeping still refl

Run-Goes_example : Goes sleeping
Run-Goes_example = Run-Goes 2 2 sleeping to_sleeping (omega arith)
