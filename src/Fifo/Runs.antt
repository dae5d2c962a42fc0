-- ===== src/Fifo/Runs.antt =====
-- data_structure/queue.h: a queue against a list of its elements.
use cpplearn.Common.{
  ℕ, ◌%◌, ◌^◌, ◌<◌, ◌≡◌, inl, inr, refl, ap, Bool, true, false, not, Option, none, some, List, [],
  ◌∷◌, ◌++◌, length, drop, ◌==◌, arith, length-append,
}
use cpplearn.Fifo.{
  Memory, Queue, ◌>>=◌, empty_queue, is_empty, push, pop, front, back, Op, push_op, pop_op,
  front_op, back_op, empty_op, size_op, Reply, done, popped, element, answered, size_is, call, run,
}
use cpplearn.Fifo.Links.{values, Holds}
use cpplearn.Fifo.Ends.{Gives, GivesPop, push-Gives, pop-Gives}

-- The element at the head, where there is one.
unfoldable first_of : List ℕ → Option ℕ
first_of [] = none
first_of (x ∷ xs) = some x

unfoldable last_of : List ℕ → Option ℕ
last_of [] = none
last_of (x ∷ []) = some x
last_of (x ∷ (y ∷ xs)) = last_of (y ∷ xs)

-- A call of a queue that is a list: an element goes on the end, and the first comes off.
unfoldable call_spec : Op → List ℕ → Option (Reply × List ℕ)
unfolding first_of last_of
call_spec (push_op x) xs = some (done, xs ++ (x ∷ []))
call_spec pop_op xs = some (popped (not (length xs == 0)), drop 1 xs)
call_spec front_op xs = first_of xs >>= λ x. some (element x, xs)
call_spec back_op xs = last_of xs >>= λ x. some (element x, xs)
call_spec empty_op xs = some (answered (length xs == 0), xs)
call_spec size_op xs = some (size_is (length xs % 2 ^ 32), xs)

unfoldable pub run_spec : List Op → List ℕ → Option (List Reply)
unfolding call_spec
run_spec [] xs = some []
run_spec (op ∷ ops) xs = call_spec op xs >>= λ r. run_spec ops r.1 >>= λ rs. some (r.0 ∷ rs)

last_of-snoc : (xs : List ℕ) (x : ℕ) → last_of (xs ++ (x ∷ [])) ≡ some x
unfolding last_of
last_of-snoc [] x = refl
last_of-snoc (y ∷ []) x = refl
last_of-snoc (y ∷ (z ∷ xs)) x = last_of-snoc (z ∷ xs) x

front_lem :
    (first : ℕ) (q : Queue) (m : Memory) (xs : List ℕ)
    → Holds first m q xs
    → front q m ≡ first_of xs
unfolding front first_of
front_lem first q m xs (size, bounds, inl (null, none_there)) =
    let test : (q.tail == 0) ≡ true = ground (arith, null) in rw (none_there, test) refl
front_lem first q m xs (size, bounds, inr ([], (x, r, e))) =
    let test : (q.tail == 0) ≡ false = ground (arith, r.not_null, r.tail_placed) in
    rw (e, test, r.last) (rw (r.links, test, r.last) refl)
front_lem first q m xs (size, bounds, inr ((a, y) ∷ rest, (x, r, e))) =
    let (here, (next, there, later)) = r.links in
    let test : (q.tail == 0) ≡ false = ground (arith, r.not_null, r.tail_placed) in
    let head : (a == 0) ≡ false = ground (arith, r.not_null, r.placed) in
    rw (e, test, r.last) (rw (here, head, there) refl)

back_lem :
    (first : ℕ) (q : Queue) (m : Memory) (xs : List ℕ) → Holds first m q xs → back q m ≡ last_of xs
unfolding back last_of
back_lem first q m xs (size, bounds, inl (null, none_there)) =
    let test : (q.tail == 0) ≡ true = ground (arith, null) in rw (none_there, test) refl
back_lem first q m xs (size, bounds, inr (cells, (x, r, e))) =
    let test : (q.tail == 0) ≡ false = ground (arith, r.not_null, r.tail_placed) in
    rw (e, test, r.last, last_of-snoc (values cells) x) refl

length-snoc_pos : (xs : List ℕ) (x : ℕ) → 0 < length (xs ++ (x ∷ []))
length-snoc_pos xs x = rw (length-append xs (x ∷ [])) omega (arith)

is_empty_lem :
    (first : ℕ) (q : Queue) (m : Memory) (xs : List ℕ)
    → Holds first m q xs
    → is_empty q ≡ (length xs == 0)
is_empty_lem first q m xs (size, bounds, inl (null, none_there)) =
    rw (none_there) ground (arith, null)
is_empty_lem first q m xs (size, bounds, inr (cells, (x, r, e))) =
    rw (e) ground (arith, r.not_null, r.tail_placed, length-snoc_pos (values cells) x)

-- Both calls fail, or they answer alike and the queue holds the list.
Answers : (first : ℕ) → Option (Reply × Queue × Memory) → Option (Reply × List ℕ) → Type 0
Answers first none none = Unit
Answers first none (some b) = ⊥
Answers first (some a) none = ⊥
Answers first (some (a, q, m)) (some (b, xs)) = (a ≡ b) × Holds first m q xs

Answers-Gives :
    (first : ℕ) (xs : List ℕ) (o : Option (Queue × Memory))
    → Gives first xs o
    → Answers first (o >>= λ r. some (done, r.0, r.1)) (some (done, xs))
unfolding Answers
Answers-Gives first xs none h = elim h [ ]
Answers-Gives first xs (some (q, m)) h = (refl, h)

Answers-GivesPop :
    (first : ℕ) (xs : List ℕ) (o : Option (Bool × Queue × Memory))
    → GivesPop first xs o
    → Answers first
        (o >>= λ r. some (popped r.0, r.1, r.2))
        (some (popped (not (length xs == 0)), drop 1 xs))
unfolding Answers
Answers-GivesPop first xs none h = elim h [ ]
Answers-GivesPop first xs (some (b, q, m)) h = (ap popped h.0, h.1)

Answers-element :
    (first : ℕ) (q : Queue) (m : Memory) (xs : List ℕ) (o : Option ℕ)
    → Holds first m q xs
    → Answers first (o >>= λ x. some (element x, q, m)) (o >>= λ x. some (element x, xs))
unfolding Answers
Answers-element first q m xs none h = tt
Answers-element first q m xs (some x) h = (refl, h)

call-Answers :
    (first : ℕ) (op : Op) (q : Queue) (m : Memory) (xs : List ℕ)
    → Holds first m q xs
    → Answers first (call op q m) (call_spec op xs)
unfolding call call_spec Answers
call-Answers first (push_op x) q m xs h =
    Answers-Gives first (xs ++ (x ∷ [])) (push x q m) (push-Gives first x q m xs h)
call-Answers first pop_op q m xs h = Answers-GivesPop first xs (pop q m) (pop-Gives first q m xs h)
call-Answers first front_op q m xs h =
    rw (front_lem first q m xs h) (Answers-element first q m xs (first_of xs) h)
call-Answers first back_op q m xs h =
    rw (back_lem first q m xs h) (Answers-element first q m xs (last_of xs) h)
call-Answers first empty_op q m xs h = (ap answered (is_empty_lem first q m xs h), h)
call-Answers first size_op q m xs h = (ap size_is h.0, h)

after_call :
    (first : ℕ) (o : Option (Reply × Queue × Memory)) (o' : Option (Reply × List ℕ)) (ops : List Op)
    → ((q : Queue) (m : Memory) (xs : List ℕ) → Holds first m q xs → run ops q m ≡ run_spec ops xs)
    → Answers first o o'
    → (o >>= λ r. run ops r.1 r.2 >>= λ rs. some (r.0 ∷ rs))
      ≡ (o' >>= λ r. run_spec ops r.1 >>= λ rs. some (r.0 ∷ rs))
unfolding Answers
after_call first none none ops on h = refl
after_call first none (some _) ops on h = elim h [ ]
after_call first (some (a, q, m)) none ops on h = elim h [ ]
after_call first (some (a, q, m)) (some (b, xs)) ops on (e, h) = rw (on q m xs h, e) refl

run-Holds :
    (first : ℕ) (ops : List Op) (q : Queue) (m : Memory) (xs : List ℕ)
    → Holds first m q xs
    → run ops q m ≡ run_spec ops xs
unfolding run run_spec
run-Holds first [] q m xs h = refl
run-Holds first (op ∷ ops) q m xs h =
    after_call first (call op q m) (call_spec op xs) ops (run-Holds first ops)
      (call-Answers first op q m xs h)

-- Any sequence of calls on a new queue, in a memory of any contents, is answered as by a list with the
-- elements in the order in which they were pushed. It fails exactly where front or back is asked of an
-- empty list.
pub queue-run_spec :
    (m : Memory) (ops : List Op) → 0 < m.fresh → run ops empty_queue m ≡ run_spec ops []
queue-run_spec m ops pos =
    run-Holds 1 ops empty_queue m [] (refl, (omega (arith), pos), inl (refl, refl))
