-- ===== src/Server/Pool.antt =====
-- unp/unpv13e/server/serv08.c and pthread08.c: main accepts connections into a ring, and a pool of
-- threads takes them from it. The steps of main and of the threads interleave in any order.
pub mod Queue
pub mod Served
pub mod Threads
use cpplearn.Common.{
  ℕ, zero, suc, ◌+◌, ◌≡◌, Bool, false, Option, none, some, List, [], ◌∷◌, ◌++◌, get_or, get_elem?,
  tally, if◌then◌else◌, ◌==◌, set,
}

abbrev pub maxncli : ℕ
maxncli = 32

-- What a thread does: it is at the lock of clifd_mutex, or blocked in pthread_cond_wait, or behind
-- the unlock, in web_child with a connection.
pub data Doing : Type 0 where
  ready asleep : Doing
  serving : ℕ → Doing

pub record Thread : Type 0 where
  pub doing : Doing
  pub thread_count : ℕ

pub record Pool : Type 0 where
  pub clifd : List ℕ
  pub iget : ℕ
  pub iput : ℕ
  pub tptr : List Thread
  -- err_quit was called
  pub quit : Bool
  -- the connections that main has accepted, that threads have taken, and that they have closed, the
  -- latest last
  pub accepted : List ℕ
  pub taken : List ℕ
  pub closed : List ℕ

abbrev pub replicate {ℓ} : {A : Type ℓ} → ℕ → A → List A
replicate zero x = []
replicate (suc n) x = x ∷ replicate n x

-- Behind the creation of the threads.
unfoldable pub start : ℕ → Pool
start nthreads = record {
  clifd = replicate maxncli 0;
  iget = 0;
  iput = 0;
  tptr = replicate nthreads (record { doing = ready; thread_count = 0 });
  quit = false;
  accepted = [];
  taken = [];
  closed = [];
}

-- `if (++i == MAXNCLI) i = 0;`
unfoldable pub next : ℕ → ℕ
next i = if i + 1 == maxncli then 0 else i + 1

-- Accept returns a connection; main puts it in the ring.
unfoldable pub put : ℕ → Pool → Pool
put connfd s = record s {
  clifd = set s.clifd s.iput connfd;
  iput = next s.iput;
  quit = next s.iput == s.iget;
  accepted = s.accepted ++ (connfd ∷ []);
}

-- The connection at `iget`, to the thread `i`.
unfoldable pub take_connection : ℕ → Thread → Pool → Pool
take_connection i t s = record s {
  iget = next s.iget;
  tptr =
      set s.tptr i
        (record { doing = serving (get_or s.clifd s.iget 0); thread_count = t.thread_count + 1 });
  taken = s.taken ++ (get_or s.clifd s.iget 0 ∷ []);
}

abbrev pub is_asleep : Doing → ℕ
is_asleep asleep = 1
is_asleep _ = 0

-- Thread `i` returns from pthread_cond_wait, to the lock; `none` if it does not wait there.
unfoldable pub wake_doing : ℕ → Pool → Thread → Doing → Option Pool
wake_doing i s t asleep = some (record s { tptr = set s.tptr i (record t { doing = ready }) })
wake_doing i s t _ = none

unfoldable pub wake_at : ℕ → Pool → Option Thread → Option Pool
wake_at i s none = none
wake_at i s (some t) = wake_doing i s t t.doing

unfoldable pub wake : ℕ → Pool → Option Pool
wake i s = wake_at i s (get_elem? s.tptr i)

-- pthread_cond_signal wakes some thread that waits, and does nothing only if there is none.
unfoldable pub signal : Option ℕ → Pool → Option Pool
signal none s = if tally (λ t. is_asleep t.doing) s.tptr == 0 then some s else none
signal (some i) s = wake i s

-- A turn of main: the lines between lock and unlock are one step.
unfoldable pub main_step : ℕ → Option ℕ → Pool → Option Pool
main_step connfd woken s =
    if s.quit
    then none
    else if (put connfd s).quit
    then some (put connfd s)
    else signal woken (put connfd s)

-- A step of a thread: from the lock to pthread_cond_wait or to the unlock, or web_child and Close.
unfoldable pub thread_doing : ℕ → Pool → Thread → Doing → Option Pool
thread_doing i s t ready = some (
    if s.iget == s.iput
    then record s { tptr = set s.tptr i (record t { doing = asleep }) }
    else take_connection i t s)
thread_doing i s t asleep = none
thread_doing i s t (serving fd) =
    some (record s {
      tptr = set s.tptr i (record t { doing = ready });
      closed = s.closed ++ (fd ∷ []);
    })

unfoldable pub thread_at : ℕ → Pool → Option Thread → Option Pool
thread_at i s none = none
thread_at i s (some t) = thread_doing i s t t.doing

unfoldable pub thread_step : ℕ → Pool → Option Pool
thread_step i s = if s.quit then none else thread_at i s (get_elem? s.tptr i)

-- A spurious wakeup, which POSIX allows.
unfoldable pub spurious_step : ℕ → Pool → Option Pool
spurious_step i s = if s.quit then none else wake i s

pub data Step (s s' : Pool) : Type 0 where
  by_main : (connfd : ℕ) (woken : Option ℕ) → main_step connfd woken s ≡ some s' → Step s s'
  by_thread : (i : ℕ) → thread_step i s ≡ some s' → Step s s'
  by_chance : (i : ℕ) → spurious_step i s ≡ some s' → Step s s'

-- A run: any number of steps, the latest last.
pub data Run (s : Pool) : Pool → Type 0 where
  still : Run s s
  then_step : (t u : Pool) → Run s t → Step t u → Run s u
