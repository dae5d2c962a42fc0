-- ===== src/Fifo/Whole.antt =====
-- data_structure/queue.h: the copy, the destructor, the assignment, swap and traverse. The fuel counts the
-- rounds of a loop over the nodes; `none` is also a loop whose fuel is used up.
pub mod Copy
pub mod Destroy
pub mod Walk
pub mod Assign
use cpplearn.Common.{
  ℕ, zero, suc, Option, none, some, List, [], ◌∷◌, ◌++◌, Bytes, codes, if◌then◌else◌, ◌==◌,
}
use cpplearn.Common.Decimal.{decimal}
use cpplearn.Fifo.{
  Memory, Queue, ◌>>=◌, load, set_next, delete_node, is_empty, link_behind, link_first, front,
}

-- The loop `while (cur != origHead)` of the copy, and the tail that it leaves.
unfoldable pub copy_loop : (fuel cur head tail : ℕ) → Memory → Option (ℕ × Memory)
copy_loop zero cur head tail m = none
copy_loop (suc fuel) cur head tail m =
    if cur == head
    then some (tail, m)
    else load cur m >>= λ c. link_behind c.data_of tail m >>= λ linked.
        load cur linked.1 >>= λ c'. copy_loop fuel c'.next head linked.0 linked.1

-- The copy constructor, for a queue that is not empty: the head of the original, from its tail.
unfoldable pub copy_nodes : (fuel : ℕ) → Queue → Memory → Option (ℕ × Memory)
unfolding copy_loop
copy_nodes fuel original m = front original m >>= λ x. link_first x m >>= λ new.
    load original.tail new.1 >>= λ t.
    load t.next new.1 >>= λ h. copy_loop fuel h.next t.next new.0 new.1

unfoldable pub copy_queue : (fuel : ℕ) → Queue → Memory → Option (Queue × Memory)
unfolding copy_nodes
copy_queue fuel original m =
    if is_empty original
    then some (record { tail = 0; size = original.size }, m)
    else copy_nodes fuel original m >>= λ r. some (record { tail = r.0; size = original.size }, r.1)

-- The loop `while (head != m_tail)` of the destructor.
unfoldable pub destroy_loop : (fuel head tail : ℕ) → Memory → Option Memory
destroy_loop zero head tail m = none
destroy_loop (suc fuel) head tail m =
    if head == tail
    then some m
    else load head m >>= λ h. set_next tail h.next m >>= λ m'.
        delete_node head m' >>= λ m''. load tail m'' >>= λ t. destroy_loop fuel t.next tail m''

unfoldable pub destroy_queue : (fuel : ℕ) → Queue → Memory → Option (Queue × Memory)
unfolding destroy_loop
destroy_queue fuel q m =
    if is_empty q
    then some (q, m)
    else load q.tail m >>= λ t. destroy_loop fuel t.next q.tail m >>= λ m'.
        delete_node q.tail m' >>= λ m''. some (record { tail = 0; size = 0 }, m'')

abbrev pub swapped : Queue → Queue → Queue × Queue
swapped a b = (b, a)

-- `operator=`: the copy, the swap, and the end of the local object.
unfoldable pub assign_queue : (fuel : ℕ) → Queue → Queue → Memory → Option (Queue × Memory)
unfolding copy_queue destroy_queue
assign_queue fuel this rhs m = copy_queue fuel rhs m >>= λ copied.
    destroy_queue fuel (swapped this copied.0).1 copied.1 >>= λ ended.
    some ((swapped this copied.0).0, ended.1)

-- The loop of traverse behind the first element.
unfoldable pub traverse_loop : (fuel head tail : ℕ) → Memory → Option (List ℕ)
traverse_loop zero head tail m = none
traverse_loop (suc fuel) head tail m =
    if head == tail
    then some []
    else load head m >>= λ h.
        load h.next m >>= λ n. traverse_loop fuel h.next tail m >>= λ rest. some (n.data_of ∷ rest)

-- A space and an element each.
abbrev pub output : List ℕ → Bytes
output [] = []
output (d ∷ rest) = b' ' ∷ (decimal d ++ output rest)

abbrev pub framed : List ℕ → Bytes
framed ds = codes "{ [lxy::Queue]" ++ (output ds ++ codes " }")

unfoldable pub traverse : (fuel : ℕ) → Queue → Memory → Option Bytes
unfolding traverse_loop
traverse fuel q m =
    if is_empty q
    then some (framed [])
    else load q.tail m >>= λ t. load t.next m >>= λ h.
        traverse_loop fuel t.next q.tail m >>= λ rest. some (framed (h.data_of ∷ rest))
