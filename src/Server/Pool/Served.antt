-- ===== src/Server/Pool/Served.antt =====
-- unp/unpv13e/server/serv08.c and pthread08.c: what holds in every state of a run.
use cpplearn.Common.{
  if_keeps, ℕ, suc, ◌+◌, ◌≤◌, ◌<◌, ◌≡◌, inl, inr, refl, ap, false, Option, none, some, List, [],
  ◌∷◌, ◌++◌, length, get_elem?, tally, tally-set, if◌then◌else◌, ◌==◌, arith, Bool-cases, Leads,
  length-append, set,
}
use cpplearn.Server.Pool.{
  Pool, put, Doing, ready, asleep, serving, Thread, is_asleep, wake_doing, wake_at, wake, signal,
  main_step, spurious_step,
}
use cpplearn.Server.Pool.Queue.{Waiting, put-Waiting, Waiting-beside}

abbrev pub is_ready : Doing → ℕ
is_ready ready = 1
is_ready _ = 0

abbrev pub same : ℕ → ℕ → ℕ
same d x = if x == d then 1 else 0

abbrev pub serves : ℕ → Doing → ℕ
serves d (serving fd) = same d fd
serves d _ = 0

-- How many threads are ready, wait, or serve `d`, and how many connections they have counted.
abbrev pub ready_count : List Thread → ℕ
ready_count = tally (λ t. is_ready t.doing)

abbrev pub asleep_count : List Thread → ℕ
asleep_count = tally (λ t. is_asleep t.doing)

abbrev pub serving_count : ℕ → List Thread → ℕ
serving_count d = tally (λ t. serves d t.doing)

abbrev pub thread_counts : List Thread → ℕ
thread_counts = tally (λ t. t.thread_count)

-- How often `d` occurs.
abbrev pub occurs : ℕ → List ℕ → ℕ
occurs d = tally (same d)

-- The threads' counts are of the connections taken, of which each is closed or being served.
pub record IsAccounted (s : Pool) : Type 0 where
  pub counted : thread_counts s.tptr ≡ length s.taken
  pub held : (d : ℕ) → occurs d s.taken ≡ occurs d s.closed + serving_count d s.tptr

-- While some thread waits, there are ready threads enough for what is in the ring.
abbrev pub IsAwake : Pool → List ℕ → Type 0
IsAwake s q = 0 < asleep_count s.tptr → length q ≤ ready_count s.tptr

pub record IsServed (s : Pool) (q : List ℕ) : Type 0 where
  pub waiting : Waiting s q
  pub accounted : IsAccounted s
  pub awake : s.quit ≡ false → IsAwake s q

-- A thread that only changes between ready and asleep.
pub turned-IsAccounted :
    (i : ℕ) (s : Pool) (t : Thread) (d : Doing)
    → get_elem? s.tptr i ≡ some t
    → ((c : ℕ) → serves c t.doing ≡ 0)
    → ((c : ℕ) → serves c d ≡ 0)
    → IsAccounted s
    → IsAccounted (record s { tptr = set s.tptr i (record t { doing = d }) })
turned-IsAccounted i s t d at before after h = record {
  counted =
      omega
        (arith, h.counted, tally-set (λ u. u.thread_count) s.tptr i t (record t { doing = d }) at);
  held = λ c. omega (
    arith,
    h.held c,
    before c,
    after c,
    tally-set (λ u. serves c u.doing) s.tptr i t (record t { doing = d }) at,
  );
}

-- Behind a put of main, before the signal.
put-IsAccounted : (fd : ℕ) (s : Pool) → IsAccounted s → IsAccounted (put fd s)
unfolding put
put-IsAccounted fd s h = record { counted = h.counted; held = h.held }

-- A thread that wakes.
woken-IsServed :
    (i : ℕ) (s : Pool) (q : List ℕ) (t : Thread) (d : Doing)
    → Waiting s q
    → IsAccounted s
    → (0 < asleep_count s.tptr → length q ≤ suc (ready_count s.tptr))
    → get_elem? s.tptr i ≡ some t
    → t.doing ≡ d
    → Leads (λ u. IsServed u q) (wake_doing i s t d)
unfolding wake_doing
woken-IsServed i s q t ready w a awake e k = tt
woken-IsServed i s q t (serving fd) w a awake e k = tt
woken-IsServed i s q t asleep w a awake e k =
    let up : Thread = record t { doing = ready } in
    let ready_more : ready_count (set s.tptr i up) ≡ suc (ready_count s.tptr) =
      omega (arith, tally-set (λ u. is_ready u.doing) s.tptr i t up e, ap is_ready k) in
    let asleep_less : suc (asleep_count (set s.tptr i up)) ≡ asleep_count s.tptr =
      omega (arith, tally-set (λ u. is_asleep u.doing) s.tptr i t up e, ap is_asleep k) in
    record {
      waiting = Waiting-beside s q (set s.tptr i up) s.closed w;
      accounted = turned-IsAccounted i s t ready e (λ c. ap (serves c) k) (λ c. refl) a;
      awake = λ on some_asleep. rw ready_more (awake (omega (arith, asleep_less)));
    }

wake-IsServed :
    (i : ℕ) (s : Pool) (q : List ℕ) (o : Option Thread)
    → Waiting s q
    → IsAccounted s
    → (0 < asleep_count s.tptr → length q ≤ suc (ready_count s.tptr))
    → get_elem? s.tptr i ≡ o
    → Leads (λ u. IsServed u q) (wake_at i s o)
unfolding wake_at
wake-IsServed i s q none w a awake e = tt
wake-IsServed i s q (some t) w a awake e = woken-IsServed i s q t t.doing w a awake e refl

-- What a step leads to: a pool that is served, with some queue.
abbrev pub IsRunning : Pool → Type 0
IsRunning s = (q : List ℕ) × IsServed s q

pub Leads-map :
    (P Q : Pool → Type 0) (o : Option Pool) → ((s : Pool) → P s → Q s) → Leads P o → Leads Q o
Leads-map P Q none f h = h
Leads-map P Q (some s) f h = f s h

signal-IsServed :
    (woken : Option ℕ) (s : Pool) (q : List ℕ)
    → Waiting s q
    → IsAccounted s
    → (0 < asleep_count s.tptr → length q ≤ suc (ready_count s.tptr))
    → Leads (λ u. IsServed u q) (signal woken s)
unfolding signal wake
signal-IsServed none s q w a awake = elim (Bool-cases (asleep_count s.tptr == 0)) [
  | inl e ↦
      rw e (record { waiting = w; accounted = a; awake = λ on more. absurd (ground (arith, e)) })
  | inr e ↦ rw e tt
]
signal-IsServed (some i) s q w a awake = wake-IsServed i s q (get_elem? s.tptr i) w a awake refl

put-awake :
    (fd : ℕ) (s : Pool) (q : List ℕ)
    → IsAwake s q
    → 0 < asleep_count (put fd s).tptr
    → length (q ++ (fd ∷ [])) ≤ suc (ready_count (put fd s).tptr)
unfolding put
put-awake fd s q h more = omega (arith, length-append q (fd ∷ []), h more)

pub main_step-IsRunning :
    (fd : ℕ) (woken : Option ℕ) (s : Pool) → IsRunning s → Leads IsRunning (main_step fd woken s)
unfolding main_step
main_step-IsRunning fd woken s (q, h) =
    if_keeps (Leads IsRunning) s.quit none _ (λ e. tt)
      (λ on.
        let w = put-Waiting fd s q h.waiting on in
        let a = put-IsAccounted fd s h.accounted in
        if_keeps (Leads IsRunning) (put fd s).quit (some (put fd s)) (signal woken (put fd s))
          (λ over. (
            q ++ (fd ∷ []),
            record {
              waiting = w;
              accounted = a;
              awake = λ off. absurd (ground (arith, over, off));
            },
          ))
          (λ go.
            Leads-map (λ u. IsServed u (q ++ (fd ∷ []))) IsRunning (signal woken (put fd s))
              (λ u k. (q ++ (fd ∷ []), k))
              (signal-IsServed woken (put fd s) (q ++ (fd ∷ [])) w a
                (put-awake fd s q (h.awake on)))))

pub spurious_step-IsRunning : (i : ℕ) (s : Pool) → IsRunning s → Leads IsRunning (spurious_step i s)
unfolding spurious_step wake
spurious_step-IsRunning i s (q, h) =
    if_keeps (Leads IsRunning) s.quit none _ (λ e. tt)
      (λ on.
        Leads-map (λ u. IsServed u q) IsRunning (wake_at i s (get_elem? s.tptr i)) (λ u k. (q, k))
          (wake-IsServed i s q (get_elem? s.tptr i) h.waiting h.accounted
            (λ more. omega (arith, h.awake on more)) refl))
