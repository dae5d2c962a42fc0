-- ===== src/Fifo/Whole/Walk.antt =====
-- data_structure/queue.h: traverse.
use cpplearn.Common.{
  ℕ, zero, suc, ◌≤◌, ◌<◌, ◌≡◌, inl, inr, refl, ap, ◌∙◌, true, false, some, List, [], ◌∷◌, ◌++◌,
  length, drop, ◌==◌, arith,
}
use cpplearn.Fifo.{LinkNode, link_node, Memory, Queue, load}
use cpplearn.Fifo.Links.{Cells, values, Links, Avoids, Placed, Holds, load-some}
use cpplearn.Fifo.Whole.{traverse_loop, framed, traverse}

-- The nodes up to the tail, and the tail itself.
module _ (first : ℕ) (m : Memory) (tail x h₀ : ℕ) (pos : 0 < first) (tail_pos : 0 < tail)
    (last : m.cell tail ≡ some (link_node x h₀)) where
  -- The node that a link leads to.
  next_node :
      (head : ℕ) (cells : Cells)
      → Links m.cell head cells tail
      → Placed first m.fresh cells
      → (n : LinkNode) × (load head m ≡ some n)
        × (n.data_of ∷ drop 1 (values cells ++ (x ∷ [])) ≡ values cells ++ (x ∷ []))
  next_node head [] links placed =
      let read = load-some tail m (link_node x h₀) tail_pos last in
      (link_node x h₀, ap (λ p. load p m) links ∙ read, refl)
  next_node head ((a, y) ∷ rest) (at_a, (next, here, later)) placed =
      let read = load-some a m (link_node y next) (omega (arith, pos, placed)) here in
      (link_node y next, ap (λ p. load p m) at_a ∙ read, refl)

  pub traverse_loop-values :
      (fuel head : ℕ) (cells : Cells)
      → length cells < fuel
      → Links m.cell head cells tail
      → Placed first m.fresh cells
      → Avoids tail cells
      → traverse_loop fuel head tail m ≡ some (drop 1 (values cells ++ (x ∷ [])))
  unfolding traverse_loop
  traverse_loop-values zero head cells enough links placed apart = absurd (omega (arith, enough))
  traverse_loop-values (suc fuel) head [] enough links placed apart =
      let test : (head == tail) ≡ true = ground (arith, links) in rw test refl
  traverse_loop-values (suc fuel) head ((a, y) ∷ rest) enough (at_a, (next, here, later)) placed
        apart =
      let test : (a == tail) ≡ false = ground (arith, apart) in
      let read = load-some a m (link_node y next) (omega (arith, pos, placed)) here in
      let (n, there, all) = next_node next rest later placed.3 in
      let on = traverse_loop-values fuel next rest (omega (arith, enough)) later placed.3 apart.1 in
      rw (at_a, test, read, there, on) (ap some all)

pub length-values : (cells : Cells) (x : ℕ) → length (values cells ++ (x ∷ [])) ≡ suc (length cells)
length-values [] x = refl
length-values (c ∷ rest) x = ap suc (length-values rest x)

-- traverse ends, if the fuel is the number of elements at least, and writes the elements in the order in
-- which they were pushed, each behind a space.
pub traverse-framed :
    (first fuel : ℕ) (q : Queue) (m : Memory) (xs : List ℕ)
    → Holds first m q xs
    → length xs ≤ fuel
    → traverse fuel q m ≡ some (framed xs)
unfolding traverse
traverse-framed first fuel q m xs (size, bounds, inl (null, none_there)) enough =
    let test : (q.tail == 0) ≡ true = ground (arith, null) in rw (none_there, test) refl
traverse-framed first fuel q m xs (size, bounds, inr (cells, (x, r, e))) enough =
    let test : (q.tail == 0) ≡ false = ground (arith, r.not_null, r.tail_placed) in
    let tail_pos : 0 < q.tail = omega (arith, r.not_null, r.tail_placed) in
    let read = load-some q.tail m (link_node x r.head) tail_pos r.last in
    let (n, there, all) =
      next_node first m q.tail x r.head r.not_null tail_pos r.last r.head cells r.links r.placed in
    let on =
      traverse_loop-values first m q.tail x r.head r.not_null tail_pos r.last fuel r.head cells
        (let size' : length xs ≡ suc (length cells) = ap length e ∙ length-values cells x in
          omega (arith, enough, size'))
        r.links r.placed r.apart in
    rw (e, test, read, there, on) (ap (λ ds. some (framed ds)) all)
