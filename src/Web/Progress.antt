-- ===== src/Web/Progress.antt =====
-- unp/unpv13e/threads/web03.c: where the program may stop.
use cpplearn.Common.{
  ℕ, suc, ◌+◌, ◌<◌, ◌≡◌, ◌≢◌, ◌⊎◌, inl, inr, refl, Option, none, some, get_elem?, List, [], ◌∷◌,
  arith,
}
use cpplearn.Web.{
  Phase, unstarted, connecting, reading, done, counted, joined, Main, outer, starting, waiting,
  asleep, thread_for, scanning, finished, quit, Web, file_at, scan_file, main_at, main_step,
  thread_at, thread_step, start, Run, Step, by_main, by_thread,
}
use cpplearn.Web.Count.{Counts, Run-Counts, MainOk}
use cpplearn.Web.Weigh.{weigh, idle, active, unread, waits}
use cpplearn.Web.Deadlock.{IsJoining}

-- A thread that runs: it has not terminated and is not `counted`.
abbrev IsRunning : Option Phase → Type 0
IsRunning (some connecting) = Unit
IsRunning (some reading) = Unit
IsRunning (some done) = Unit
IsRunning _ = ⊥

weigh-unread : (files : List Phase) → weigh unread files ≡ weigh idle files + weigh active files
weigh-unread [] = refl
weigh-unread (unstarted ∷ rest) = omega (arith, weigh-unread rest)
weigh-unread (connecting ∷ rest) = omega (arith, weigh-unread rest)
weigh-unread (reading ∷ rest) = omega (arith, weigh-unread rest)
weigh-unread (done ∷ rest) = omega (arith, weigh-unread rest)
weigh-unread (counted ∷ rest) = omega (arith, weigh-unread rest)
weigh-unread (joined ∷ rest) = omega (arith, weigh-unread rest)

-- If a thread is active and none is counted, one runs.
IsRunning-file :
    (files : List Phase)
    → weigh waits files ≡ 0
    → 0 < weigh active files
    → (i : ℕ) × IsRunning (file_at files i)
unfolding file_at
IsRunning-file [] none_waits some_active = absurd (omega arith)
IsRunning-file (connecting ∷ rest) none_waits some_active = (0, tt)
IsRunning-file (reading ∷ rest) none_waits some_active = (0, tt)
IsRunning-file (done ∷ rest) none_waits some_active = (0, tt)
IsRunning-file (counted ∷ rest) none_waits some_active = absurd (omega (arith, none_waits))
IsRunning-file (phase ∷ rest) none_waits some_active =
    let (i, r) = IsRunning-file rest (omega (arith, none_waits)) (omega (arith, some_active)) in
    (suc i, r)

-- What the program can do in a state.
abbrev pub Goes : Web → Type 0
Goes s = (s.main ≡ finished) ⊎ (((i : ℕ) × IsJoining i s) ⊎ ((t : Web) × Step s t))

module _ (s : Web) where
  main-Goes : (o : Option Web) → main_step s ≡ o → o ≢ none → Goes s
  main-Goes none e ne = absurd (ne refl)
  main-Goes (some t) e ne = inr (inr (t, by_main s t e))

  thread-Goes : (i : ℕ) (o : Option Web) → thread_step i s ≡ o → o ≢ none → Goes s
  thread-Goes i none e ne = absurd (ne refl)
  thread-Goes i (some t) e ne = inr (inr (t, by_thread i s t e))

  thread_at-asleep :
      (i : ℕ) (o : Option Phase) → s.main ≡ asleep → IsRunning o → thread_at s i o ≢ none
  unfolding thread_at
  thread_at-asleep i (some connecting) e r = λ c. cc
  thread_at-asleep i (some reading) e r = λ c. cc
  thread_at-asleep i (some done) e r = rw e (λ c. cc)
  thread_at-asleep i none e r = absurd r
  thread_at-asleep i (some unstarted) e r = absurd r
  thread_at-asleep i (some counted) e r = absurd r
  thread_at-asleep i (some joined) e r = absurd r

  -- The thread of a file whose thread runs.
  running-owned :
      (i : ℕ) (o : Option Phase)
      → file_at s.files i ≡ o
      → IsRunning o
      → Counts s
      → get_elem? s.threads (s.f_tid i) ≡ some i
  running-owned i (some connecting) e r h = h.owns i connecting e refl
  running-owned i (some reading) e r h = h.owns i reading e refl
  running-owned i (some done) e r h = h.owns i done e refl
  running-owned i none e r h = absurd r
  running-owned i (some unstarted) e r h = absurd r
  running-owned i (some counted) e r h = absurd r
  running-owned i (some joined) e r h = absurd r

  scanning-Goes : (i : ℕ) (o : Option Phase) → s.main ≡ scanning i → file_at s.files i ≡ o → Goes s
  unfolding main_step main_at scan_file
  scanning-Goes i (some done) m e = inr (inl (i, record { at = m; phase = e }))
  scanning-Goes i o m e = main-Goes (main_step s) refl (rw (m, e) (λ c. cc))

  -- Main sleeps: ndone is 0, and so some thread runs, which goes on.
  asleep-Goes :
      s.main ≡ asleep
      → Counts s
      → 0 < s.maxnconn
      → MainOk asleep s.nlefttoread s.nconn s.maxnconn s.nlefttoconn s.ndone
      → Goes s
  unfolding thread_step thread_for
  asleep-Goes m h most ok =
      let none_waits : weigh waits s.files ≡ 0 = omega (arith, h.waiters, ok.2) in
      let some_active : 0 < weigh active s.files =
        ground (arith, weigh-unread s.files, h.idles, h.actives, h.unreads) in
      let (i, r) = IsRunning-file s.files none_waits some_active in
      let own : get_elem? s.threads (s.f_tid i) ≡ some i =
        running-owned i (file_at s.files i) refl r h in
      thread-Goes (s.f_tid i) (thread_step (s.f_tid i) s) refl
        (rw own (thread_at-asleep i (file_at s.files i) m r))

  Goes-at :
      (m : Main)
      → s.main ≡ m
      → Counts s
      → 0 < s.maxnconn
      → MainOk m s.nlefttoread s.nconn s.maxnconn s.nlefttoconn s.ndone
      → Goes s
  unfolding main_step main_at
  Goes-at outer m h most ok = main-Goes (main_step s) refl (rw m (λ c. cc))
  Goes-at starting m h most ok = main-Goes (main_step s) refl (rw m (λ c. cc))
  Goes-at waiting m h most ok = main-Goes (main_step s) refl (rw m (λ c. cc))
  Goes-at asleep m h most ok = asleep-Goes m h most ok
  Goes-at (scanning i) m h most ok = scanning-Goes i (file_at s.files i) m refl
  Goes-at finished m h most ok = inl m
  Goes-at quit m h most ok = absurd ok

Counts-Goes : (s : Web) → Counts s → 0 < s.maxnconn → Goes s
Counts-Goes s h most = Goes-at s s.main refl h most h.main_ok

-- If at least one connection is allowed, every state of every run has a step of main or of a thread, also
-- where main sleeps until it is signalled, unless main has ended, or main joins a thread that has set
-- F_DONE and waits for the mutex.
pub Run-Goes :
    (nfiles maxnconn : ℕ) (t : Web) → Run (start nfiles maxnconn) t → 0 < t.maxnconn → Goes t
Run-Goes nfiles maxnconn t run most = Counts-Goes t (Run-Counts nfiles maxnconn t run) most
