-- ===== src/Fifo/Whole/Copy.antt =====
-- data_structure/queue.h: the copy constructor.
use cpplearn.Common.{
  ℕ, zero, suc, ◌≤◌, ◌<◌, ◌≡◌, inl, inr, refl, sym, ap, ◌∙◌, true, false, Option, some, List, [],
  ◌∷◌, ◌++◌, append_assoc, append-nil, length, ◌==◌, All, arith,
}
use cpplearn.Fifo.{link_node, Memory, Queue, load, front}
use cpplearn.Fifo.Links.{
  Cells, values, Links, Avoids, Placed, Ring, Holds, load-some, Links-same, Links-append,
  values-append, Avoids-append,
}
use cpplearn.Fifo.Ends.{
  linked, link_behind-eq, linked-same, linked-Ring, single, link_first-eq, single-same, single-Ring,
}
use cpplearn.Fifo.Whole.{copy_loop, copy_nodes, copy_queue}

-- What was allocated is as it was.
abbrev pub Extends : Memory → Memory → Type 0
Extends m m' = (a : ℕ) → a < m.fresh → m'.cell a ≡ m.cell a

-- A run that ends with a ring of new nodes for the elements.
record Copied (m : Memory) (n : ℕ) (xs : List ℕ) (o : Option (ℕ × Memory)) : Type 0 where
  tail : ℕ
  memory : Memory
  result : o ≡ some (tail, memory)
  kept : Extends m memory
  cells : Cells
  last_element : ℕ
  ring : Ring m.fresh memory (record { tail = tail; size = n }) cells last_element
  elements : xs ≡ values cells ++ (last_element ∷ [])

module _ (m₀ : Memory) (head n : ℕ) where
  copy_loop-Copied :
      (fuel cur : ℕ) (rest : Cells) (m : Memory) (tail : ℕ) (cells : Cells) (x : ℕ)
      → length rest < fuel
      → Links m₀.cell cur rest head
      → Avoids head rest
      → All (λ c. (0 < c.0) × (c.0 < m₀.fresh)) rest
      → Extends m₀ m
      → Ring m₀.fresh m (record { tail = tail; size = n }) cells x
      → Copied m₀ n ((values cells ++ (x ∷ [])) ++ values rest) (copy_loop fuel cur head tail m)
  unfolding copy_loop
  copy_loop-Copied zero cur rest m tail cells x enough links apart old kept r =
      absurd (omega (arith, enough))
  copy_loop-Copied (suc fuel) cur [] m tail cells x enough links apart old kept r =
      let test : (cur == head) ≡ true = ground (arith, links) in
      rw (test, append-nil (values cells ++ (x ∷ [])))
        (record {
          tail = tail;
          memory = m;
          result = refl;
          kept = kept;
          cells = cells;
          last_element = x;
          ring = r;
          elements = refl;
        })
  copy_loop-Copied (suc fuel) cur ((a, y) ∷ rest) m tail cells x enough (at_a, (next, here, later))
        apart old kept r =
      let test : (a == head) ≡ false = ground (arith, apart) in
      let q : Queue = record { tail = tail; size = n } in
      let m' = linked m₀.fresh m q cells x y r in
      let read : load a m ≡ some (link_node y next) =
        load-some a m (link_node y next) old.0.0 (kept a old.0.1 ∙ here) in
      let same : (c : ℕ) → c < m₀.fresh → m'.cell c ≡ m.cell c = λ c lt.
        linked-same m₀.fresh m q cells x y r c (λ e. omega (arith, e, lt, r.tail_placed))
          (omega (arith, lt, r.tail_placed)) in
      let again : load a m' ≡ some (link_node y next) =
        load-some a m' (link_node y next) old.0.0 (same a old.0.1 ∙ kept a old.0.1 ∙ here) in
      let list : (values cells ++ (x ∷ [])) ++ (y ∷ values rest)
          ≡ (values (cells ++ ((tail, x) ∷ [])) ++ (y ∷ [])) ++ values rest =
        ap (λ us. us ++ (y ∷ values rest)) (sym (values-append cells tail x))
        ∙ sym (append_assoc (values (cells ++ ((tail, x) ∷ []))) (y ∷ []) (values rest)) in
      rw (at_a, test, read, link_behind-eq m₀.fresh m q cells x y r, again, list)
        (copy_loop-Copied fuel next rest m' m.fresh (cells ++ ((tail, x) ∷ [])) y
          (omega (arith, enough)) later apart.1 old.1 (λ c lt. same c lt ∙ kept c lt)
          (linked-Ring m₀.fresh m q cells x y r n))

-- The copy of a ring, from its tail: the head with x₀, and the nodes behind it up to the head again.
copy_nodes-Copied :
    (fuel : ℕ) (q : Queue) (m : Memory) (head next x x₀ : ℕ) (rest : Cells)
    → length rest < fuel
    → (0 < q.tail) × (q.tail < m.fresh)
    → (0 < head) × (head < m.fresh)
    → m.cell q.tail ≡ some (link_node x head)
    → m.cell head ≡ some (link_node x₀ next)
    → Links m.cell next rest head
    → Avoids head rest
    → All (λ c. (0 < c.0) × (c.0 < m.fresh)) rest
    → Copied m q.size (x₀ ∷ values rest) (copy_nodes fuel q m)
unfolding copy_nodes front
copy_nodes-Copied fuel q m head next x x₀ rest enough tail_old head_old last first links apart old =
    let m' = single x₀ m in
    let kept : Extends m m' = single-same x₀ m in
    let read_tail = load-some q.tail m (link_node x head) tail_old.0 last in
    let read_head = load-some head m (link_node x₀ next) head_old.0 first in
    let tail_again =
      load-some q.tail m' (link_node x head) tail_old.0 (kept q.tail tail_old.1 ∙ last) in
    let head_again =
      load-some head m' (link_node x₀ next) head_old.0 (kept head head_old.1 ∙ first) in
    let new = link_first-eq x₀ m (omega (arith, head_old)) in
    rw (read_tail, read_head, new, tail_again, head_again)
      (copy_loop-Copied m head q.size fuel next rest m' m.fresh [] x₀ enough links apart old kept
        (single-Ring x₀ m m.fresh q.size (omega (arith, head_old)) (omega arith)))

Placed-grow :
    (first fresh fresh' : ℕ) (cells : Cells)
    → fresh ≤ fresh'
    → Placed first fresh cells
    → Placed first fresh' cells
Placed-grow first fresh fresh' [] le h = tt
Placed-grow first fresh fresh' ((a, x) ∷ rest) le h =
    (h.0, omega (arith, h.1, le), h.2, Placed-grow first fresh fresh' rest le h.3)

Placed-old :
    (first fresh : ℕ) (cells : Cells)
    → 0 < first
    → Placed first fresh cells
    → All (λ c. (0 < c.0) × (c.0 < fresh)) cells
Placed-old first fresh [] pos h = tt
Placed-old first fresh ((a, x) ∷ rest) pos h =
    (omega (arith, pos, h.0, h.1), Placed-old first fresh rest pos h.3)

All-snoc :
    (P : ℕ × ℕ → Type 0) (cells : Cells) (c : ℕ × ℕ) → All P cells → P c → All P (cells ++ (c ∷ []))
All-snoc P [] c h p = (p, tt)
All-snoc P (d ∷ rest) c h p = (h.0, All-snoc P rest c h.1 p)

-- A ring is left alone where no old node is written.
pub Ring-Extends :
    (first : ℕ) (m m' : Memory) (q : Queue) (cells : Cells) (x : ℕ)
    → m.fresh ≤ m'.fresh
    → Extends m m'
    → Ring first m q cells x
    → Ring first m' q cells x
Ring-Extends first m m' q cells x le kept r = record {
  head = r.head;
  links =
      Links-same m.cell m'.cell r.head q.tail cells (λ a. (0 < a) × (a < m.fresh))
        (λ a h. kept a h.1) (Placed-old first m.fresh cells r.not_null r.placed) r.links;
  last = kept q.tail r.tail_placed.1 ∙ r.last;
  placed = Placed-grow first m.fresh m'.fresh cells le r.placed;
  tail_placed = omega (arith, r.tail_placed, le);
  apart = r.apart;
  not_null = r.not_null;
}

length-cells :
    (cells : Cells) (a x : ℕ) → length (cells ++ ((a, x) ∷ [])) ≡ length (values cells ++ (x ∷ []))
length-cells [] a x = refl
length-cells (c ∷ rest) a x = ap suc (length-cells rest a x)

ring-Copied :
    (first fuel : ℕ) (q : Queue) (m : Memory) (cells : Cells) (x : ℕ)
    → length (values cells ++ (x ∷ [])) ≤ fuel
    → Ring first m q cells x
    → Copied m q.size (values cells ++ (x ∷ [])) (copy_nodes fuel q m)
ring-Copied first fuel q m [] x enough r =
    let tail_old : (0 < q.tail) × (q.tail < m.fresh) = omega (arith, r.not_null, r.tail_placed) in
    let at_tail : m.cell q.tail ≡ some (link_node x q.tail) =
      r.last ∙ ap (λ h. some (link_node x h)) r.links in
    copy_nodes-Copied fuel q m q.tail q.tail x x [] (omega (arith, enough)) tail_old tail_old
      at_tail at_tail refl tt tt
ring-Copied first fuel q m ((a, y) ∷ rest) x enough r =
    let (here, (next, there, later)) = r.links in
    let tail_old : (0 < q.tail) × (q.tail < m.fresh) = omega (arith, r.not_null, r.tail_placed) in
    let at_tail : m.cell q.tail ≡ some (link_node x a) =
      r.last ∙ ap (λ h. some (link_node x h)) here in
    let all = ap (λ ys. y ∷ ys) (sym (values-append rest q.tail x)) in
    rw all (
      copy_nodes-Copied fuel q m a next x y (rest ++ ((q.tail, x) ∷ []))
        (omega (arith, enough, length-cells rest q.tail x)) tail_old
        (omega (arith, r.not_null, r.placed)) at_tail there
        (Links-append m.cell next q.tail a x rest later at_tail)
        (Avoids-append a q.tail x rest (λ e. r.apart.0 (sym e)) r.placed.2)
        (All-snoc (λ c. (0 < c.0) × (c.0 < m.fresh)) rest (q.tail, x)
          (Placed-old first m.fresh rest r.not_null r.placed.3) tail_old))

-- The copy constructor ends, with a round for each element to spare, and makes of new nodes a queue with
-- the same elements in the same order; the original holds its elements as before,
-- and no old memory is written.
pub copy_queue-Holds :
    (first fuel : ℕ) (q : Queue) (m : Memory) (xs : List ℕ)
    → Holds first m q xs
    → length xs ≤ fuel
    → (copied : Queue) × (m' : Memory) × (copy_queue fuel q m ≡ some (copied, m'))
      × Holds m.fresh m' copied xs
      × Holds first m' q xs
      × (m.fresh ≤ m'.fresh)
      × Extends m m'
unfolding copy_queue
copy_queue-Holds first fuel q m xs (size, bounds, inl (null, none_there)) enough =
    let test : (q.tail == 0) ≡ true = ground (arith, null) in
    rw test (
      record { tail = 0; size = q.size },
      m,
      refl,
      (size, omega (arith, bounds), inl (refl, none_there)),
      (size, bounds, inl (null, none_there)),
      omega arith,
      λ a old. refl,
    )
copy_queue-Holds first fuel q m xs (size, bounds, inr (cells, (x, r, e))) enough =
    let test : (q.tail == 0) ≡ false = ground (arith, r.not_null, r.tail_placed) in
    let c = ring-Copied first fuel q m cells x (rw e at enough) r in
    let grown : m.fresh ≤ c.memory.fresh = omega (arith, c.ring.tail_placed) in
    rw (test, c.result)
      (
        record { tail = c.tail; size = q.size },
        c.memory,
        refl,
        (
          size,
          omega (arith, bounds, grown),
          inr (c.cells, (c.last_element, c.ring, e ∙ c.elements)),
        ),
        (
          size,
          omega (arith, bounds, grown),
          inr (cells, (x, Ring-Extends first m c.memory q cells x grown c.kept r, e)),
        ),
        grown,
        c.kept,
      )
