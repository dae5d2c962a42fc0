-- ===== src/Web/Count.antt =====
-- unp/unpv13e/threads/web03.c: the counters count the files in their phases.
use cpplearn.Common.{
  Leads, ℕ, zero, suc, ◌+◌, ◌≤◌, ◌<◌, ◌≡◌, ◌⊎◌, refl, Bool, true, false, ◌&&◌, Option, none, some,
  get_elem?, List, [], ◌∷◌, if◌then◌else◌, ◌==◌, ltb, arith,
}
use cpplearn.Web.{
  Phase, unstarted, connecting, reading, done, counted, joined, Main, outer, starting, waiting,
  asleep, signal, is_unstarted, join_file, thread_for, scanning, finished, quit, Web, file_at,
  set_file, find_file, later, all_unstarted, start, start_thread, joins, scan_file, main_at,
  main_step, holds_mutex, thread_at, thread_step, Run, Run-keeps,
}
use cpplearn.Web.Own.{Owns, Owns-set, Owns-start}
use cpplearn.Web.Weigh.{
  weigh, idle, active, unread, waits, weigh-set_file, weigh-all_unstarted_ones,
  weigh-all_unstarted_zeros,
}

-- What holds where main is: it starts threads and waits only for files that are left, it waits only
-- with no thread to start, it sleeps only with no thread counted, it ends only with none left, and it
-- never calls err_quit or err_sys.
abbrev pub MainOk : Main → (nlefttoread nconn maxnconn nlefttoconn ndone : ℕ) → Type 0
MainOk starting left conn most idle ndone = 0 < left
MainOk waiting left conn most idle ndone = (0 < left) × ((most ≤ conn) ⊎ (idle ≡ 0))
MainOk asleep left conn most idle ndone = (0 < left) × ((most ≤ conn) ⊎ (idle ≡ 0)) × (ndone ≡ 0)
MainOk finished left conn most idle ndone = left ≡ 0
MainOk quit left conn most idle ndone = ⊥
MainOk _ left conn most idle ndone = Unit

pub record Counts (s : Web) : Type 0 where
  pub idles : weigh idle s.files ≡ s.nlefttoconn
  pub actives : weigh active s.files ≡ s.nconn
  pub unreads : weigh unread s.files ≡ s.nlefttoread
  pub waiters : weigh waits s.files ≡ s.ndone
  pub bounded : s.nconn ≤ s.maxnconn
  pub owns : Owns s.files s.threads s.f_tid
  pub main_ok : MainOk s.main s.nlefttoread s.nconn s.maxnconn s.nlefttoconn s.ndone

-- What find_file promises: the file that it finds is not started; if it finds none, none is.
Found : List Phase → Option ℕ → Type 0
Found files none = weigh idle files ≡ 0
Found files (some i) = file_at files i ≡ some unstarted

Found-later :
    (phase : Phase) (rest : List Phase) (o : Option ℕ)
    → idle phase ≡ 0
    → Found rest o
    → Found (phase ∷ rest) (later o)
unfolding Found file_at
Found-later phase rest none z h = omega (arith, z, h)
Found-later phase rest (some i) z h = h

find_file-Found : (files : List Phase) → Found files (find_file files)
unfolding find_file Found file_at
find_file-Found [] = refl
find_file-Found (unstarted ∷ rest) = refl
find_file-Found (phase ∷ rest) = Found-later phase rest (find_file rest) refl (find_file-Found rest)

all_unstarted-started :
    (n i : ℕ) (phase : Phase)
    → file_at (all_unstarted n) i ≡ some phase
    → is_unstarted phase ≡ false
    → ⊥
unfolding file_at
all_unstarted-started zero i phase e h = cc
all_unstarted-started (suc n) zero unstarted e h = cc
all_unstarted-started (suc n) zero phase e h = cc
all_unstarted-started (suc n) (suc i) phase e h = all_unstarted-started n i phase e h

start-Counts : (nfiles maxnconn : ℕ) → Counts (start nfiles maxnconn)
unfolding start
start-Counts nfiles maxnconn = record {
  idles = (weigh-all_unstarted_ones nfiles).0;
  actives = (weigh-all_unstarted_zeros nfiles).0;
  unreads = (weigh-all_unstarted_ones nfiles).1;
  waiters = (weigh-all_unstarted_zeros nfiles).1;
  bounded = omega arith;
  owns = λ i phase e started. absurd (all_unstarted-started nfiles i phase e started);
  main_ok = tt;
}

Counts-if :
    (b : Bool) (s t : Web)
    → (b ≡ true → Counts s)
    → (b ≡ false → Counts t)
    → Counts (if b then s else t)
Counts-if true s t h k = h refl
Counts-if false s t h k = k refl

Leads-if : (b : Bool) (s : Web) → Counts s → Leads Counts (if b then none else some s)
Leads-if true s h = tt
Leads-if false s h = h

-- Main goes on to another place with the counters as they are.
module _ (s : Web) (h : Counts s) where
  Counts-goto :
      (m : Main)
      → MainOk m s.nlefttoread s.nconn s.maxnconn s.nlefttoconn s.ndone
      → Counts (record s { main = m })
  Counts-goto m ok = record {
    idles = h.idles;
    actives = h.actives;
    unreads = h.unreads;
    waiters = h.waiters;
    bounded = h.bounded;
    owns = h.owns;
    main_ok = ok;
  }

  joins-Counts : (i : ℕ) → file_at s.files i ≡ some counted → Counts (joins s i i)
  joins-Counts i e = record {
    idles = omega (arith, h.idles, weigh-set_file idle s.files i counted joined e);
    actives = omega (arith, h.actives, weigh-set_file active s.files i counted joined e);
    unreads = omega (arith, h.unreads, weigh-set_file unread s.files i counted joined e);
    waiters = omega (arith, h.waiters, weigh-set_file waits s.files i counted joined e);
    bounded = omega (arith, h.bounded);
    owns = Owns-set s.files s.threads s.f_tid h.owns i counted joined e refl;
    main_ok = tt;
  }

  -- The thread that main joins returns the file that it was given, which is file `i`.
  join_file-Counts :
      (i : ℕ) (o : Option ℕ)
      → o ≡ some i
      → file_at s.files i ≡ some counted
      → Counts (join_file s i o)
  unfolding join_file
  join_file-Counts i none own e = absurd (cc)
  join_file-Counts i (some fptr) own e =
      let same : fptr ≡ i = ground (arith, own) in
      let test : (i == i) ≡ true = ground arith in rw (same, test) (joins-Counts i e)

  scan_file-Counts :
      (i : ℕ) (o : Option Phase) → file_at s.files i ≡ o → Leads Counts (scan_file s i o)
  unfolding scan_file
  scan_file-Counts i none e = Counts-goto outer tt
  scan_file-Counts i (some done) e = tt
  scan_file-Counts i (some counted) e =
      join_file-Counts i (get_elem? s.threads (s.f_tid i)) (h.owns i counted e refl) e
  scan_file-Counts i (some _) e = Counts-goto (scanning (suc i)) tt

  start_thread-Counts :
      (o : Option ℕ)
      → Found s.files o
      → s.main ≡ starting
      → 0 < s.nlefttoread
      → s.nconn < s.maxnconn
      → 0 < s.nlefttoconn
      → Counts (start_thread s o)
  unfolding start_thread Found
  start_thread-Counts none none_left m left room some_left =
      absurd (omega (arith, none_left, h.idles))
  start_thread-Counts (some i) at m left room some_left = record {
    idles = omega (arith, h.idles, weigh-set_file idle s.files i unstarted connecting at);
    actives = omega (arith, h.actives, weigh-set_file active s.files i unstarted connecting at);
    unreads = omega (arith, h.unreads, weigh-set_file unread s.files i unstarted connecting at);
    waiters = omega (arith, h.waiters, weigh-set_file waits s.files i unstarted connecting at);
    bounded = omega arith;
    owns = Owns-start s.files s.threads s.f_tid h.owns i;
    main_ok = rw m left;
  }

  main_at-Counts :
      (m : Main)
      → s.main ≡ m
      → MainOk m s.nlefttoread s.nconn s.maxnconn s.nlefttoconn s.ndone
      → Leads Counts (main_at s m)
  unfolding main_at
  main_at-Counts outer e ok =
      Counts-goto (if ltb 0 s.nlefttoread then starting else finished) (ground arith)
  main_at-Counts starting e ok =
      Counts-if (ltb s.nconn s.maxnconn && ltb 0 s.nlefttoconn) _ _
        (λ t.
          start_thread-Counts (find_file s.files) (find_file-Found s.files) e ok (ground arith)
            (ground arith))
        (λ f. Counts-goto waiting (ok, ground arith))
  main_at-Counts waiting e ok =
      Counts-if (s.ndone == 0) _ _ (λ none_done. Counts-goto asleep (ok.0, ok.1, ground arith))
        (λ some_done. Counts-goto (scanning 0) tt)
  main_at-Counts asleep e ok = tt
  main_at-Counts (scanning i) e ok = scan_file-Counts i (file_at s.files i) refl
  main_at-Counts finished e ok = tt
  main_at-Counts quit e ok = tt

  -- A thread goes from one phase to the next between start and end: ndone counts the counted ones.
  phase-Counts :
      (i : ℕ) (a b : Phase) (n : ℕ) (m : Main)
      → file_at s.files i ≡ some a
      → is_unstarted a ≡ false
      → idle a ≡ idle b
      → active a ≡ active b
      → unread a ≡ unread b
      → s.ndone + waits b ≡ n + waits a
      → MainOk m s.nlefttoread s.nconn s.maxnconn s.nlefttoconn n
      → Counts (record s { files = set_file s.files i b; ndone = n; main = m })
  phase-Counts i a b n m e started same0 same1 same2 more ok = record {
    idles = omega (arith, h.idles, same0, weigh-set_file idle s.files i a b e);
    actives = omega (arith, h.actives, same1, weigh-set_file active s.files i a b e);
    unreads = omega (arith, h.unreads, same2, weigh-set_file unread s.files i a b e);
    waiters = omega (arith, h.waiters, more, weigh-set_file waits s.files i a b e);
    bounded = h.bounded;
    owns = Owns-set s.files s.threads s.f_tid h.owns i a b e started;
    main_ok = ok;
  }

  -- The signal wakes main up, which had nothing to join before.
  signal-MainOk :
      (m : Main)
      → MainOk m s.nlefttoread s.nconn s.maxnconn s.nlefttoconn s.ndone
      → MainOk (signal m) s.nlefttoread s.nconn s.maxnconn s.nlefttoconn (s.ndone + 1)
  signal-MainOk asleep ok = (ok.0, ok.1)
  signal-MainOk outer ok = ok
  signal-MainOk starting ok = ok
  signal-MainOk waiting ok = ok
  signal-MainOk (scanning i) ok = ok
  signal-MainOk finished ok = ok
  signal-MainOk quit ok = ok

  thread_at-Counts :
      (i : ℕ) (o : Option Phase) → file_at s.files i ≡ o → Leads Counts (thread_at s i o)
  unfolding thread_at
  thread_at-Counts i (some connecting) e =
      phase-Counts i connecting reading s.ndone s.main e refl refl refl refl refl h.main_ok
  thread_at-Counts i (some reading) e =
      phase-Counts i reading done s.ndone s.main e refl refl refl refl refl h.main_ok
  thread_at-Counts i (some done) e = Leads-if (holds_mutex s.main) _ (
      phase-Counts i done counted (s.ndone + 1) (signal s.main) e refl refl refl refl (omega arith)
        (signal-MainOk s.main h.main_ok))
  thread_at-Counts i _ e = tt

  thread_for-Counts : (o : Option ℕ) → Leads Counts (thread_for s o)
  unfolding thread_for
  thread_for-Counts none = tt
  thread_for-Counts (some i) = thread_at-Counts i (file_at s.files i) refl

pub Run-Counts : (nfiles maxnconn : ℕ) (t : Web) → Run (start nfiles maxnconn) t → Counts t
unfolding main_step thread_step
Run-Counts nfiles maxnconn t run =
    Run-keeps Counts (λ s h. main_at-Counts s h s.main refl h.main_ok)
      (λ tid s h. thread_for-Counts s h (get_elem? s.threads tid)) (start nfiles maxnconn) t run
      (start-Counts nfiles maxnconn)
