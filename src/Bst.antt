-- ===== src/Bst.antt =====
-- data_structure/BST.h: a binary search tree, with natural numbers for its elements.
-- The nodes are linked from one place each, so that a tree stands for the pointer to its root, and a
-- write through `parent` for the tree with that subtree replaced.
pub mod Sorted
pub mod Search
pub mod Remove
pub mod Walk
use Prim.Native.Nat.{max}
use cpplearn.Common.Decimal.{decimal}
use cpplearn.Common.{
  ℕ, zero, suc, ◌+◌, ◌-◌, ◌%◌, ◌^◌, Bool, true, false, Option, none, some, List, [], ◌∷◌, ◌++◌,
  Bytes, codes, if◌then◌else◌, ◌==◌, ltb,
}

-- A pointer to a LinkNode, by what it leads to.
pub data Tree : Type 0 where
  leaf : Tree
  node : Tree → ℕ → Tree → Tree

pub record Bst : Type 0 where
  pub root : Tree
  pub size : ℕ

-- The nodes of a tree.
abbrev pub nodes : Tree → ℕ
nodes leaf = 0
nodes (node l d r) = nodes l + suc (nodes r)

abbrev pub empty_bst : Bst
empty_bst = record { root = leaf; size = 0 }

-- `++m_size` and `--m_size` in 32 bits.
abbrev pub inc_size : ℕ → ℕ
inc_size n = (n + 1) % 2 ^ 32

abbrev pub dec_size : ℕ → ℕ
dec_size n = (n + 2 ^ 32 - 1) % 2 ^ 32

abbrev pub map_tree : (Tree → Tree) → Option Tree → Option Tree
map_tree f none = none
map_tree f (some t) = some (f t)

-- The loop of insert, and the link to the new node; `none` if the element is found.
unfoldable pub insert_tree : ℕ → Tree → Option Tree
insert_tree elem leaf = some (node leaf elem leaf)
insert_tree elem (node l d r) =
    let right = map_tree (λ t. node l d t) (insert_tree elem r) in
    let left = map_tree (λ t. node t d r) (insert_tree elem l) in
    if d == elem then none else if ltb d elem then right else left

abbrev pub insert_outcome : Bst → Option Tree → Bool × Bst
insert_outcome b none = (false, b)
insert_outcome b (some t) = (true, record b { root = t; size = inc_size b.size })

-- The allocation of the node succeeds; a failure ends the process.
unfoldable pub insert : ℕ → Bst → Bool × Bst
unfolding insert_tree
insert elem b = insert_outcome b (insert_tree elem b.root)

unfoldable pub find_tree : ℕ → Tree → Bool
find_tree elem leaf = false
find_tree elem (node l d r) =
    let right = find_tree elem r in
    let left = find_tree elem l in if d == elem then true else if ltb d elem then right else left

abbrev pub find : ℕ → Bst → Bool
find elem b = find_tree elem b.root

-- What remove makes of the tree. `knotted`: a link leads back to its own node.
pub data Removed : Type 0 where
  absent : Removed
  removed : Tree → Removed
  knotted : Removed

-- The loop of remove_min from a node on: the least element, and the tree without it.
unfoldable pub detach_min : Tree → ℕ → Tree → ℕ × Tree
detach_min leaf d r = (d, r)
detach_min (node ll ld lr) d r = let (least, l) = detach_min ll ld lr in (least, node l d r)

-- `tmp` for the children of the node that is removed. If the right child has no left child it is
-- itself what remove_min returns, and `tmp->right = pos->right` links it to itself.
unfoldable pub replacement : Tree → Tree → Removed
unfolding detach_min
replacement leaf r = removed r
replacement (node ll ld lr) leaf = removed (node ll ld lr)
replacement (node ll ld lr) (node leaf rd rr) = knotted
replacement (node ll ld lr) (node (node rll rld rlr) rd rr) =
    let (least, r) = detach_min (node rll rld rlr) rd rr in removed (node (node ll ld lr) least r)

abbrev pub map_removed : (Tree → Tree) → Removed → Removed
map_removed f absent = absent
map_removed f (removed t) = removed (f t)
map_removed f knotted = knotted

unfoldable pub remove_tree : ℕ → Tree → Removed
unfolding replacement
remove_tree elem leaf = absent
remove_tree elem (node l d r) =
    let right = map_removed (λ t. node l d t) (remove_tree elem r) in
    let left = map_removed (λ t. node t d r) (remove_tree elem l) in
    if d == elem then replacement l r else if ltb d elem then right else left

-- The inner loop: a node and all nodes to its left on the stack.
unfoldable pub push_left : Tree → List (ℕ × Tree) → List (ℕ × Tree)
push_left leaf unvisited = unvisited
push_left (node l d r) unvisited = push_left l ((d, r) ∷ unvisited)

abbrev pub cons_output : ℕ → Option (List ℕ) → Option (List ℕ)
cons_output d none = none
cons_output d (some rest) = some (d ∷ rest)

-- The top of the stack is visited, and the loop goes on at its right link; or all is done.
abbrev pub visit_next :
    (Tree → List (ℕ × Tree) → Option (List ℕ)) → List (ℕ × Tree) → Option (List ℕ)
visit_next next [] = some []
visit_next next ((d, r) ∷ unvisited) = cons_output d (next r unvisited)

-- The loop of traverse: the elements in the order of the output. On the stack stands each node by its
-- element and its right link. `none` is a loop whose fuel is used up.
unfoldable pub traverse_loop : (fuel : ℕ) → Tree → List (ℕ × Tree) → Option (List ℕ)
unfolding push_left
traverse_loop zero t unvisited = none
traverse_loop (suc fuel) t unvisited = visit_next (traverse_loop fuel) (push_left t unvisited)

-- An element and a space each.
abbrev pub output : List ℕ → Bytes
output [] = []
output (d ∷ rest) = decimal d ++ (b' ' ∷ output rest)

abbrev pub map_output : (List ℕ → Bytes) → Option (List ℕ) → Option Bytes
map_output f none = none
map_output f (some ds) = some (f ds)

abbrev pub framed : List ℕ → Bytes
framed ds = codes "{ [lxy::BST] " ++ (output ds ++ codes "}")

unfoldable pub traverse : Bst → Option Bytes
unfolding traverse_loop
traverse b =
    if b.size == 0
    then some (framed [])
    else map_output framed (traverse_loop (suc (nodes b.root)) b.root [])

unfoldable pub depth_impl : Tree → ℕ
depth_impl leaf = 0
depth_impl (node l d r) = (1 + max (depth_impl l) (depth_impl r)) % 2 ^ 32

abbrev pub remove_outcome : Bst → Removed → Option (Bool × Bst)
remove_outcome b absent = some (false, b)
remove_outcome b (removed t) = some (true, record b { root = t; size = dec_size b.size })
remove_outcome b knotted = none

-- `none` is an object whose links are no tree any more.
unfoldable pub remove : ℕ → Bst → Option (Bool × Bst)
unfolding remove_tree
remove elem b = remove_outcome b (remove_tree elem b.root)

-- Memory is the number of nodes that can still be allocated; `none` is the call of abort.
unfoldable pub copy : Tree → ℕ → Option (Tree × ℕ)
copy leaf free = some (leaf, free)
copy (node l d r) zero = none
copy (node l d r) (suc free) = elim (copy l free) [
  | none ↦ none
  | some (l', free') ↦ elim (copy r free') [
    | none ↦ none
    | some (r', free'') ↦ some (node l' d r', free'')
  ]
]

abbrev pub with_size : ℕ → Option (Tree × ℕ) → Option (Bst × ℕ)
with_size n none = none
with_size n (some (t, free)) = some (record { root = t; size = n }, free)

-- The copy constructor.
unfoldable pub copy_bst : Bst → ℕ → Option (Bst × ℕ)
unfolding copy
copy_bst original free =
    if original.size == 0
    then some (record { root = leaf; size = original.size }, free)
    else with_size original.size (copy original.root free)

-- `clear` deletes each node: the nodes that can be allocated behind it.
unfoldable pub clear : Tree → ℕ → ℕ
clear leaf free = free
clear (node l d r) free = suc (clear r (clear l free))

-- The destructor.
abbrev pub destroy : Bst → ℕ → ℕ
destroy b free = if b.size == 0 then free else clear b.root free

abbrev pub swapped : Bst → Bst → Bst × Bst
swapped a b = (b, a)

abbrev pub after_copy : Bst → Option (Bst × ℕ) → Option (Bst × ℕ)
after_copy this none = none
after_copy this (some (rhs, free)) =
    let (new, old) = swapped this rhs in some (new, destroy old free)

-- `operator=`: the copy, the swap, and the end of the local object.
unfoldable pub assign_bst : Bst → Bst → ℕ → Option (Bst × ℕ)
unfolding copy_bst clear
assign_bst this rhs free = after_copy this (copy_bst rhs free)
