-- ===== src/Fifo/Whole/Assign.antt =====
-- data_structure/queue.h: the assignment.
use cpplearn.Common.{
  ℕ, suc, ◌≤◌, ◌≡◌, inl, inr, refl, ap, ◌∙◌, true, some, List, [], ◌∷◌, length, ◌==◌, All, arith,
}
use cpplearn.Fifo.{Memory, Queue, empty_queue}
use cpplearn.Fifo.Links.{Cells, Avoids, Placed, Holds, Links-same}
use cpplearn.Fifo.Whole.{destroy_queue, assign_queue}
use cpplearn.Fifo.Whole.Copy.{Extends, Ring-Extends, copy_queue-Holds}
use cpplearn.Fifo.Whole.Destroy.{destroy_queue-Freed}
use cpplearn.Fifo.Whole.Walk.{length-values}

-- The memory from an address on is as it was.
abbrev SameFrom : ℕ → Memory → Memory → Type 0
SameFrom first m m' = (m'.fresh ≡ m.fresh) × ((a : ℕ) → first ≤ a → m'.cell a ≡ m.cell a)

Placed-from :
    (first fresh : ℕ) (cells : Cells) → Placed first fresh cells → All (λ c. first ≤ c.0) cells
Placed-from first fresh [] h = tt
Placed-from first fresh ((a, x) ∷ rest) h = (h.0, Placed-from first fresh rest h.3)

Avoids-beyond :
    (first fresh b : ℕ) (cells : Cells) → fresh ≤ b → Placed first fresh cells → Avoids b cells
Avoids-beyond first fresh b [] le h = tt
Avoids-beyond first fresh b ((a, x) ∷ rest) le h =
    ((λ e. omega (arith, e, h.1, le)), Avoids-beyond first fresh b rest le h.3)

Holds-same :
    (first : ℕ) (m m' : Memory) (q : Queue) (xs : List ℕ)
    → SameFrom first m m'
    → Holds first m q xs
    → Holds first m' q xs
Holds-same first m m' q xs same (size, bounds, inl none_there) =
    (size, omega (arith, bounds, same.0), inl none_there)
Holds-same first m m' q xs same (size, bounds, inr (cells, (x, r, e))) = (
  size,
  omega (arith, bounds, same.0),
  inr (
    cells,
    (
      x,
      record {
        head = r.head;
        links =
            Links-same m.cell m'.cell r.head q.tail cells (λ a. first ≤ a) same.1
              (Placed-from first m.fresh cells r.placed) r.links;
        last = same.1 q.tail r.tail_placed.0 ∙ r.last;
        placed = rw same.0 r.placed;
        tail_placed = omega (arith, r.tail_placed, same.0);
        apart = r.apart;
        not_null = r.not_null;
      },
      e,
    ),
  ),
)

destroy_none :
    (fuel : ℕ) (q : Queue) (m : Memory) → q.tail ≡ 0 → destroy_queue fuel q m ≡ some (q, m)
unfolding destroy_queue
destroy_none fuel q m null = let test : (q.tail == 0) ≡ true = ground (arith, null) in rw test refl

-- The destructor of a queue of an old memory leaves everything alone that was allocated since.
destroy_queue-SameFrom :
    (first fuel : ℕ) (q : Queue) (m m' : Memory) (ys : List ℕ)
    → Holds first m q ys
    → length ys ≤ fuel
    → m.fresh ≤ m'.fresh
    → Extends m m'
    → (q' : Queue) × (m'' : Memory) × (destroy_queue fuel q m' ≡ some (q', m''))
      × SameFrom m.fresh m' m''
destroy_queue-SameFrom first fuel q m m' ys (size, bounds, inl (null, none_there)) enough le kept =
    (q, m', destroy_none fuel q m' null, (refl, λ a above. refl))
destroy_queue-SameFrom first fuel q m m' ys (size, bounds, inr (cells, (x, r, e))) enough le kept =
    let count : length ys ≡ suc (length cells) = ap length e ∙ length-values cells x in
    let r' = Ring-Extends first m m' q cells x le kept r in
    let (m'', run, gone, tail_gone, same_fresh, others) =
      destroy_queue-Freed first fuel m' q cells x r' (omega (arith, enough, count)) in
    (
      empty_queue,
      m'',
      run,
      (
        same_fresh,
        λ a above.
            others a (λ h. omega (arith, h, above, r.tail_placed))
              (Avoids-beyond first m.fresh a cells above r.placed),
      ),
    )

-- The assignment ends, with a round for each element of both queues to spare, and leaves the object with
-- the elements of the right-hand side, in the same order and in nodes of its own.
pub assign_queue-Holds :
    (first first' fuel : ℕ) (this rhs : Queue) (m : Memory) (ys xs : List ℕ)
    → Holds first m this ys
    → Holds first' m rhs xs
    → length ys ≤ fuel
    → length xs ≤ fuel
    → (assigned : Queue) × (m' : Memory) × (assign_queue fuel this rhs m ≡ some (assigned, m'))
      × Holds m.fresh m' assigned xs
unfolding assign_queue
assign_queue-Holds first first' fuel this rhs m ys xs h k enough enough' =
    let (copied, m', copy_run, new, old, grown, kept) =
      copy_queue-Holds first' fuel rhs m xs k enough' in
    let (ended, m'', destroy_run, same) =
      destroy_queue-SameFrom first fuel this m m' ys h enough grown kept in
    rw (copy_run, destroy_run) (copied, m'', refl, Holds-same m.fresh m' m'' copied xs same new)
