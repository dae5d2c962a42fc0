-- ===== src/Bst/Walk.antt =====
-- data_structure/BST.h: traverse, the copy and the assignment.
use cpplearn.Common.{
  ℕ, zero, suc, ◌+◌, ◌<◌, ◌≡◌, inl, inr, refl, sym, ap, ◌∙◌, some, List, [], ◌∷◌, ◌++◌,
  append_assoc, append-nil, ◌==◌, arith, Bool-cases,
}
use cpplearn.Bst.{
  Tree, leaf, node, Bst, nodes, push_left, visit_next, traverse_loop, framed, traverse, copy,
  copy_bst, clear, destroy, assign_bst,
}
use cpplearn.Bst.Sorted.{inorder}
use cpplearn.Bst.Search.{IsBst}

-- What the stack stands for, and the rounds that it takes.
pending : List (ℕ × Tree) → List ℕ
pending [] = []
pending ((d, r) ∷ rest) = d ∷ (inorder r ++ pending rest)

rounds : List (ℕ × Tree) → ℕ
rounds [] = 0
rounds ((d, r) ∷ rest) = suc (nodes r + rounds rest)

push_left-pending :
    (t : Tree) (unvisited : List (ℕ × Tree))
    → (pending (push_left t unvisited) ≡ inorder t ++ pending unvisited)
      × (rounds (push_left t unvisited) ≡ nodes t + rounds unvisited)
unfolding push_left pending rounds
push_left-pending leaf unvisited = (refl, omega arith)
push_left-pending (node l d r) unvisited =
    let (e, n) = push_left-pending l ((d, r) ∷ unvisited) in
    (e ∙ sym (append_assoc (inorder l) (d ∷ inorder r) (pending unvisited)), omega (arith, n))

-- One round, if the loop does what it should at the right link.
visit_next-pending :
    (fuel : ℕ) (stack : List (ℕ × Tree))
    → rounds stack < suc fuel
    → ((t : Tree) (rest : List (ℕ × Tree))
        → nodes t + rounds rest < fuel
        → traverse_loop fuel t rest ≡ some (inorder t ++ pending rest))
    → visit_next (traverse_loop fuel) stack ≡ some (pending stack)
unfolding pending rounds
visit_next-pending fuel [] enough go = refl
visit_next-pending fuel ((d, r) ∷ rest) enough go = rw (go r rest (omega (arith, enough))) refl

traverse_loop-inorder :
    (fuel : ℕ) (t : Tree) (unvisited : List (ℕ × Tree))
    → nodes t + rounds unvisited < fuel
    → traverse_loop fuel t unvisited ≡ some (inorder t ++ pending unvisited)
unfolding traverse_loop
traverse_loop-inorder zero t unvisited enough = absurd (omega (arith, enough))
traverse_loop-inorder (suc fuel) t unvisited enough =
    let (e, n) = push_left-pending t unvisited in
    visit_next-pending fuel (push_left t unvisited) (omega (arith, enough, n))
      (traverse_loop-inorder fuel)
    ∙ ap some e

inorder-empty : (t : Tree) → nodes t ≡ 0 → inorder t ≡ []
inorder-empty leaf e = refl
inorder-empty (node l d r) e = absurd (omega (arith, e))

-- traverse, with its stack in place of a recursion, ends, and writes the elements in the order of the
-- recursive traversal, left subtree, element, right subtree.
pub traverse-inorder : (b : Bst) → IsBst b → traverse b ≡ some (framed (inorder b.root))
unfolding traverse pending rounds
traverse-inorder b h = elim (Bool-cases (b.size == 0)) [
  | inl none_there ↦
      let empty = inorder-empty b.root (ground (arith, none_there, h.sized)) in
      rw (none_there, empty) refl
  | inr some_there ↦
      let run = traverse_loop-inorder (suc (nodes b.root)) b.root [] (omega arith) in
      rw (some_there, run, append-nil (inorder b.root)) refl
]

-- A copy takes as many nodes as the tree has.
copy-same : (t : Tree) (free n : ℕ) → n ≡ nodes t + free → copy t n ≡ some (t, free)
unfolding copy
copy-same leaf free n e = let same : n ≡ free = omega (arith, e) in rw same refl
copy-same (node l d r) free zero e = absurd (omega (arith, e))
copy-same (node l d r) free (suc n) e =
    rw (copy-same l (nodes r + free) n (omega (arith, e)), copy-same r free (nodes r + free) refl)
      refl

clear-nodes : (t : Tree) (free : ℕ) → clear t free ≡ nodes t + free
unfolding clear
clear-nodes leaf free = omega arith
clear-nodes (node l d r) free = omega (arith, clear-nodes l free, clear-nodes r (clear l free))

destroy-nodes : (b : Bst) (free : ℕ) → IsBst b → destroy b free ≡ nodes b.root + free
destroy-nodes b free h = ground (arith, clear-nodes b.root free, h.sized)

tree-empty : (t : Tree) → nodes t ≡ 0 → t ≡ leaf
tree-empty leaf e = refl
tree-empty (node l d r) e = absurd (omega (arith, e))

copy_bst-same : (b : Bst) (free : ℕ) → IsBst b → copy_bst b (nodes b.root + free) ≡ some (b, free)
unfolding copy_bst
copy_bst-same b free h = elim (Bool-cases (b.size == 0)) [
  | inl none_there ↦
      let none_left : nodes b.root ≡ 0 = ground (arith, none_there, h.sized) in
      let empty = tree-empty b.root none_left in
      let all_free : nodes b.root + free ≡ free = omega (arith, none_left) in
      rw (none_there, all_free)
        (ap (λ t. some (record { root = t; size = b.size }, free)) (sym empty))
  | inr some_there ↦ rw (some_there, copy-same b.root free (nodes b.root + free) refl) refl
]

-- The assignment with memory for a copy gives the object the elements of the right-hand side, whose
-- nodes are left alone, and gives back the nodes that the object had, no more and no fewer.
pub assign_bst-same :
    (this rhs : Bst) (free : ℕ)
    → IsBst this
    → IsBst rhs
    → assign_bst this rhs (nodes rhs.root + free) ≡ some (rhs, nodes this.root + free)
unfolding assign_bst
assign_bst-same this rhs free h k =
    rw (copy_bst-same rhs free k) (ap (λ n. some (rhs, n)) (destroy-nodes this free h))
