-- ===== src/Web.antt =====
-- unp/unpv13e/threads/web03.c: main starts a thread for each file, at most maxnconn at a time, and
-- joins the threads that are done. The steps of main and of the threads interleave in any order.
pub mod Count
pub mod Deadlock
pub mod Own
pub mod Progress
pub mod Weigh
use cpplearn.Common.{
  Leads, Leads-some, ℕ, zero, suc, ◌+◌, ◌-◌, ◌≡◌, Bool, true, false, ◌&&◌, Option, none, some, List,
  [], ◌∷◌, ◌++◌, length, get_elem?, if◌then◌else◌, ◌==◌, ltb,
}

-- How far the thread of a file is. f_flags is 0, F_CONNECTING, F_READING, F_DONE, F_DONE again and
-- F_JOINED; the thread is `counted` when it has increased ndone, behind which it terminates.
pub data Phase : Type 0 where
  unstarted connecting reading done counted joined : Phase

-- Where main is: at the test of the outer loop, in the loop that starts threads, at the lock and the
-- test of ndone, asleep in Pthread_cond_wait with the mutex released, or in the loop over the files with
-- ndone_mutex held; at the end; or in err_quit or err_sys.
pub data Main : Type 0 where
  outer starting waiting asleep : Main
  scanning : ℕ → Main
  finished quit : Main

pub record Web : Type 0 where
  pub files : List Phase
  -- what each thread was given, by its number: the index of a file; and the threads of the files
  pub threads : List ℕ
  pub f_tid : ℕ → ℕ
  pub maxnconn : ℕ
  pub nconn : ℕ
  pub nlefttoconn : ℕ
  pub nlefttoread : ℕ
  pub ndone : ℕ
  pub main : Main

unfoldable pub file_at : List Phase → ℕ → Option Phase
file_at [] i = none
file_at (phase ∷ rest) zero = some phase
file_at (phase ∷ rest) (suc i) = file_at rest i

unfoldable pub set_file : List Phase → ℕ → Phase → List Phase
set_file [] i new = []
set_file (phase ∷ rest) zero new = new ∷ rest
set_file (phase ∷ rest) (suc i) new = phase ∷ set_file rest i new

abbrev pub is_unstarted : Phase → Bool
is_unstarted unstarted = true
is_unstarted _ = false

abbrev pub later : Option ℕ → Option ℕ
later none = none
later (some i) = some (suc i)

-- The first file whose f_flags is 0.
unfoldable pub find_file : List Phase → Option ℕ
find_file [] = none
find_file (phase ∷ rest) = if is_unstarted phase then some 0 else later (find_file rest)

-- The start of the program, behind home_page.
abbrev pub all_unstarted : ℕ → List Phase
all_unstarted zero = []
all_unstarted (suc n) = unstarted ∷ all_unstarted n

unfoldable pub start : ℕ → ℕ → Web
start nfiles maxnconn = record {
  files = all_unstarted nfiles;
  threads = [];
  f_tid = λ i. 0;
  maxnconn = maxnconn;
  nconn = 0;
  nlefttoconn = nfiles;
  nlefttoread = nfiles;
  ndone = 0;
  main = outer;
}

-- `file[i].f_tid = tid;`
abbrev pub set_tid : (ℕ → ℕ) → (i tid : ℕ) → ℕ → ℕ
set_tid f_tid i tid j = if j == i then tid else f_tid j

-- The thread of the file that was found is created; `err_quit` if there is none.
unfoldable pub start_thread : Web → Option ℕ → Web
start_thread s none = record s { main = quit }
start_thread s (some i) = record s {
  files = set_file s.files i connecting;
  threads = s.threads ++ (i ∷ []);
  f_tid = set_tid s.f_tid i (length s.threads);
  nconn = s.nconn + 1;
  nlefttoconn = s.nlefttoconn - 1;
}

-- The thread of file `i` has returned `fptr`, what it was given.
abbrev pub joins : Web → (i fptr : ℕ) → Web
joins s i fptr = record s {
  files = set_file s.files fptr joined;
  nconn = s.nconn - 1;
  nlefttoread = s.nlefttoread - 1;
  ndone = s.ndone - 1;
  main = scanning (suc i);
}

-- What Pthread_join gives for the thread of file `i`: an error, which ends the process, or a pointer,
-- which err_quit wants to be `&file[i]`.
unfoldable pub join_file : Web → ℕ → Option ℕ → Web
join_file s i none = record s { main = quit }
join_file s i (some fptr) = if fptr == i then joins s i fptr else record s { main = quit }

-- File `i` in the loop with the mutex held. F_DONE is set in `done` and in `counted`, and
-- Pthread_join returns only for a thread that has terminated: `none` is a main that blocks.
unfoldable pub scan_file : Web → ℕ → Option Phase → Option Web
scan_file s i none = some (record s { main = outer })
scan_file s i (some done) = none
scan_file s i (some counted) = some (join_file s i (get_elem? s.threads (s.f_tid i)))
scan_file s i (some _) = some (record s { main = scanning (suc i) })

-- A step of main; `none` if it blocks or has ended. Main sleeps until it is signalled.
unfoldable pub main_at : Web → Main → Option Web
main_at s outer = some (record s { main = if ltb 0 s.nlefttoread then starting else finished })
main_at s starting = some (
    if ltb s.nconn s.maxnconn && ltb 0 s.nlefttoconn
    then start_thread s (find_file s.files)
    else record s { main = waiting })
main_at s waiting =
    some (if s.ndone == 0 then record s { main = asleep } else record s { main = scanning 0 })
main_at s asleep = none
main_at s (scanning i) = scan_file s i (file_at s.files i)
main_at s finished = none
main_at s quit = none

unfoldable pub main_step : Web → Option Web
unfolding main_at
main_step s = main_at s s.main

-- Main holds ndone_mutex.
abbrev pub holds_mutex : Main → Bool
holds_mutex (scanning i) = true
holds_mutex _ = false

-- `Pthread_cond_signal(&ndone_cond);`: a main that sleeps wakes up, and is at the mutex and the test
-- again; else nothing happens.
abbrev pub signal : Main → Main
signal asleep = waiting
signal m = m

-- A step of the thread that was given file `i`, at a phase. The lines between lock and unlock of ndone_mutex are
-- one step, which waits while main holds the mutex.
unfoldable pub thread_at : Web → ℕ → Option Phase → Option Web
thread_at s i (some connecting) = some (record s { files = set_file s.files i reading })
thread_at s i (some reading) = some (record s { files = set_file s.files i done })
thread_at s i (some done) =
    if holds_mutex s.main
    then none
    else some
        (record s { files = set_file s.files i counted; ndone = s.ndone + 1; main = signal s.main })
thread_at s i _ = none

unfoldable pub thread_for : Web → Option ℕ → Option Web
unfolding thread_at
thread_for s none = none
thread_for s (some i) = thread_at s i (file_at s.files i)

-- A step of a thread by its number.
unfoldable pub thread_step : ℕ → Web → Option Web
unfolding thread_for
thread_step tid s = thread_for s (get_elem? s.threads tid)

pub data Step : Web → Web → Type 0 where
  by_main : (s s' : Web) → main_step s ≡ some s' → Step s s'
  by_thread : (i : ℕ) (s s' : Web) → thread_step i s ≡ some s' → Step s s'

-- A run: any number of steps, the latest last.
pub data Run (s : Web) : Web → Type 0 where
  still : Run s s
  then_step : (t u : Web) → Run s t → Step t u → Run s u

-- A property that steps of main and of the threads keep holds in every state of a run.
pub Run-keeps :
    (P : Web → Type 0)
    → ((s : Web) → P s → Leads P (main_step s))
    → ((i : ℕ) (s : Web) → P s → Leads P (thread_step i s))
    → (s t : Web) → Run s t
    → P s
    → P t
Run-keeps P by_m by_t s _ still h = h
Run-keeps P by_m by_t s _ (then_step t u run (by_main _ _ e)) h =
    Leads-some P (main_step t) u (by_m t (Run-keeps P by_m by_t s t run h)) e
Run-keeps P by_m by_t s _ (then_step t u run (by_thread i _ _ e)) h =
    Leads-some P (thread_step i t) u (by_t i t (Run-keeps P by_m by_t s t run h)) e
