-- ===== src/Server/Pool/Threads.antt =====
-- unp/unpv13e/server/serv08.c and pthread08.c: the steps of the threads, and the runs.
use cpplearn.Common.{
  if_keeps, Leads, ℕ, zero, suc, ◌+◌, ◌<◌, ◌≡◌, refl, ap, ◌∙◌, false, Option, none, some, List, [],
  ◌∷◌, ◌++◌, length, get_or, get_elem?, tally-set, tally-append, ◌==◌, arith, Leads, Leads-some,
  length-append, set,
}
use cpplearn.Server.Pool.{
  maxncli, Pool, take_connection, Doing, ready, asleep, serving, Thread, start, replicate,
  is_asleep, thread_doing, thread_at, thread_step, by_main, by_thread, by_chance, Run, still,
  then_step,
}
use cpplearn.Server.Pool.Queue.{Waiting, take_connection-Waiting, start-Waiting, Waiting-beside}
use cpplearn.Server.Pool.Served.{
  is_ready, same, serves, asleep_count, serving_count, thread_counts, IsAccounted, IsAwake,
  IsServed, turned-IsAccounted, IsRunning, main_step-IsRunning, spurious_step-IsRunning,
}

-- The indices meet only if nothing waits in the ring.
meet-empty :
    (s : Pool) (q : List ℕ) → Waiting s q → s.quit ≡ false → (s.iget == s.iput) ≡ (length q == 0)
meet-empty s q w on =
    let short : length q < maxncli = ground (arith, on, w.over, w.bounded) in
    ground (arith, w.put_at, w.get_fits, short)

module _ (i : ℕ) (s : Pool) (t : Thread) (at : get_elem? s.tptr i ≡ some t) where
  -- Pthread_cond_wait, where nothing waits.
  asleep-IsServed :
      t.doing ≡ ready
      → IsServed s []
      → IsServed (record s { tptr = set s.tptr i (record t { doing = asleep }) }) []
  asleep-IsServed k h = record {
    waiting = Waiting-beside s [] (set s.tptr i (record t { doing = asleep })) s.closed h.waiting;
    accounted = turned-IsAccounted i s t asleep at (λ c. ap (serves c) k) (λ c. refl) h.accounted;
    awake = λ on more. omega arith;
  }

  -- A connection taken.
  taken-IsAccounted : t.doing ≡ ready → IsAccounted s → IsAccounted (take_connection i t s)
  unfolding take_connection
  taken-IsAccounted k h =
      let fd : ℕ = get_or s.clifd s.iget 0 in
      let t' : Thread = record { doing = serving fd; thread_count = t.thread_count + 1 } in
      record {
        counted = omega (
          arith,
          h.counted,
          length-append s.taken (fd ∷ []),
          tally-set (λ u. u.thread_count) s.tptr i t t' at,
        );
        held = λ c. omega (
          arith,
          h.held c,
          tally-append (same c) s.taken (fd ∷ []),
          tally-set (λ u. serves c u.doing) s.tptr i t t' at,
          ap (serves c) k,
        );
      }

  taken-IsAwake :
      (fd : ℕ) (q : List ℕ)
      → t.doing ≡ ready
      → IsAwake s (fd ∷ q)
      → IsAwake (take_connection i t s) q
  unfolding take_connection
  taken-IsAwake fd q k h more =
      let t' : Thread = record {
        doing = serving (get_or s.clifd s.iget 0);
        thread_count = t.thread_count + 1;
      } in
      let still_asleep : asleep_count (set s.tptr i t') ≡ asleep_count s.tptr =
        omega (arith, tally-set (λ u. is_asleep u.doing) s.tptr i t t' at, ap is_asleep k) in
      omega (
        arith,
        tally-set (λ u. is_ready u.doing) s.tptr i t t' at,
        ap is_ready k,
        h (omega (arith, still_asleep)),
      )

  -- A connection closed.
  closed-IsServed :
      (fd : ℕ) (q : List ℕ)
      → t.doing ≡ serving fd
      → IsServed s q
      → IsServed
          (record s {
            tptr = set s.tptr i (record t { doing = ready });
            closed = s.closed ++ (fd ∷ []);
          })
          q
  closed-IsServed fd q k h =
      let up : Thread = record t { doing = ready } in
      let still_asleep : asleep_count (set s.tptr i up) ≡ asleep_count s.tptr =
        omega (arith, tally-set (λ u. is_asleep u.doing) s.tptr i t up at, ap is_asleep k) in
      record {
        waiting = Waiting-beside s q (set s.tptr i up) (s.closed ++ (fd ∷ [])) h.waiting;
        accounted = record {
          counted =
              omega (arith, h.accounted.counted, tally-set (λ u. u.thread_count) s.tptr i t up at);
          held = λ c. omega (
            arith,
            h.accounted.held c,
            tally-append (same c) s.closed (fd ∷ []),
            tally-set (λ u. serves c u.doing) s.tptr i t up at,
            ap (serves c) k,
          );
        };
        awake = λ on more. omega (
          arith,
          h.awake on (omega (arith, still_asleep)),
          ap is_ready k,
          tally-set (λ u. is_ready u.doing) s.tptr i t up at,
        );
      }

  ready-IsRunning :
      (q : List ℕ)
      → s.quit ≡ false
      → t.doing ≡ ready
      → IsServed s q
      → Leads IsRunning (thread_doing i s t ready)
  unfolding thread_doing
  ready-IsRunning [] on k h = rw (meet-empty s [] h.waiting on) ([], asleep-IsServed k h)
  ready-IsRunning (fd ∷ q) on k h =
      let apart : (s.iget == s.iput) ≡ false = meet-empty s (fd ∷ q) h.waiting on ∙ ground arith in
      rw apart (
        q,
        record {
          waiting = take_connection-Waiting i t s fd q h.waiting on;
          accounted = taken-IsAccounted k h.accounted;
          awake = λ off. taken-IsAwake fd q k (h.awake on);
        },
      )

  thread_doing-IsRunning :
      (d : Doing) (q : List ℕ)
      → s.quit ≡ false
      → t.doing ≡ d
      → IsServed s q
      → Leads IsRunning (thread_doing i s t d)
  unfolding thread_doing
  thread_doing-IsRunning ready q on k h = ready-IsRunning q on k h
  thread_doing-IsRunning asleep q on k h = tt
  thread_doing-IsRunning (serving fd) q on k h = (q, closed-IsServed fd q k h)

thread_at-IsRunning :
    (i : ℕ) (s : Pool) (o : Option Thread) (q : List ℕ)
    → s.quit ≡ false
    → get_elem? s.tptr i ≡ o
    → IsServed s q
    → Leads IsRunning (thread_at i s o)
unfolding thread_at
thread_at-IsRunning i s none q on e h = tt
thread_at-IsRunning i s (some t) q on e h = thread_doing-IsRunning i s t e t.doing q on refl h

thread_step-IsRunning : (i : ℕ) (s : Pool) → IsRunning s → Leads IsRunning (thread_step i s)
unfolding thread_step
thread_step-IsRunning i s (q, h) =
    if_keeps (Leads IsRunning) s.quit none _ (λ e. tt)
      (λ on. thread_at-IsRunning i s (get_elem? s.tptr i) q on refl h)

replicate-unused :
    (n c : ℕ) (t : Thread)
    → t.thread_count ≡ 0
    → serves c t.doing ≡ 0
    → (thread_counts (replicate n t) ≡ 0) × (serving_count c (replicate n t) ≡ 0)
replicate-unused zero c t e k = (refl, refl)
replicate-unused (suc n) c t e k = (
  omega (arith, e, (replicate-unused n c t e k).0),
  omega (arith, k, (replicate-unused n c t e k).1),
)

start-IsAccounted : (n : ℕ) → IsAccounted (start n)
unfolding start
start-IsAccounted n =
    let fresh : Thread = record { doing = ready; thread_count = 0 } in
    record {
      counted = (replicate-unused n 0 fresh refl refl).0;
      held = λ d. omega (arith, (replicate-unused n d fresh refl refl).1);
    }

start-IsRunning : (n : ℕ) → IsRunning (start n)
start-IsRunning n = (
  [],
  record {
    waiting = start-Waiting n;
    accounted = start-IsAccounted n;
    awake = λ on more. omega arith;
  },
)

-- In every state of a run of the server with `n` threads there is a queue: the ring holds it, at
-- most 32 connections, and the connections that main has accepted are those that threads have taken
-- and then the queue, in order; main has called err_quit exactly if the queue has 32. Each
-- connection taken has been closed or is being served, once each, and is counted by its thread. And
-- while main runs, if some thread waits on the condition, the threads ready to take a connection
-- are at least as many as the connections in the queue.
pub Run-IsRunning : (n : ℕ) (s : Pool) → Run (start n) s → IsRunning s
Run-IsRunning n _ still = start-IsRunning n
Run-IsRunning n _ (then_step t u run (by_main fd woken e)) =
    Leads-some IsRunning _ u (main_step-IsRunning fd woken t (Run-IsRunning n t run)) e
Run-IsRunning n _ (then_step t u run (by_thread i e)) =
    Leads-some IsRunning _ u (thread_step-IsRunning i t (Run-IsRunning n t run)) e
Run-IsRunning n _ (then_step t u run (by_chance i e)) =
    Leads-some IsRunning _ u (spurious_step-IsRunning i t (Run-IsRunning n t run)) e
