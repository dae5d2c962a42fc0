-- ===== src/Bst/Remove.antt =====
-- data_structure/BST.h: remove.
use native.Mathlib.Decide.{dec_lt}
use cpplearn.Common.{
  ℕ, suc, ◌<◌, ◌≡◌, ◌⊎◌, inl, inr, refl, sym, ap, ◌∙◌, Bool, true, false, Option, none, some, [],
  ◌∷◌, ◌++◌, append-nil, ◌==◌, ltb, arith,
}
use mathlib.Core.Path.{subst}
use cpplearn.Bst.{
  Tree, leaf, node, Bst, nodes, Removed, absent, removed, knotted, detach_min, replacement,
  map_removed, remove_tree, remove_outcome, remove,
}
use cpplearn.Bst.Sorted.{
  Sorted, inorder, member, erase, Around, Sorted-Around, member-lower, member-upper, member-here,
  erase-lower, erase-upper, erase-here, erase-Sorted, erase_missing,
}
use cpplearn.Bst.Search.{IsBst}

-- The two children are both there, and the right one has no left child.
abbrev pub IsKnot : Tree → Tree → Type 0
IsKnot (node ll ld lr) (node leaf rd rr) = Unit
IsKnot l r = ⊥

-- The element stands at a node with such children.
abbrev pub HasKnot : ℕ → Tree → Type 0
HasKnot x leaf = ⊥
HasKnot x (node l d r) = ((d ≡ x) × IsKnot l r) ⊎ (HasKnot x l ⊎ HasKnot x r)

-- What the loop of remove makes of a tree.
Removes : ℕ → Tree → Removed → Type 0
Removes x t absent = member x (inorder t) ≡ false
Removes x t (removed t') =
    (member x (inorder t) ≡ true) × (inorder t' ≡ erase x (inorder t)) × (suc (nodes t') ≡ nodes t)
Removes x t knotted = HasKnot x t

detach_min-inorder :
    (l : Tree) (d : ℕ) (r : Tree)
    → ((detach_min l d r).0 ∷ inorder (detach_min l d r).1 ≡ inorder (node l d r))
      × (suc (nodes (detach_min l d r).1) ≡ nodes (node l d r))
unfolding detach_min
detach_min-inorder leaf d r = (refl, omega arith)
detach_min-inorder (node ll ld lr) d r =
    let (e, n) = detach_min-inorder ll ld lr in
    (ap (λ xs. xs ++ (d ∷ inorder r)) e, omega (arith, n))

replacement-Removes :
    (l : Tree) (d : ℕ) (r : Tree)
    → Around (inorder l) d (inorder r)
    → Removes d (node l d r) (replacement l r)
unfolding replacement Removes
replacement-Removes leaf d r a =
    (member-here d d [] (inorder r) refl, sym (erase-here d [] (inorder r) a.lower), omega arith)
replacement-Removes (node ll ld lr) d leaf a =
    let l = node ll ld lr in
    (
      member-here d d (inorder l) [] refl,
      sym (erase-here d (inorder l) [] a.lower ∙ append-nil (inorder l)),
      omega arith,
    )
replacement-Removes (node ll ld lr) d (node leaf rd rr) a = inl (refl, tt)
replacement-Removes (node ll ld lr) d (node (node rll rld rlr) rd rr) a =
    let l = node ll ld lr in
    let r = node (node rll rld rlr) rd rr in
    let (e, n) = detach_min-inorder (node rll rld rlr) rd rr in
    (
      member-here d d (inorder l) (inorder r) refl,
      ap (λ ys. inorder l ++ ys) e ∙ sym (erase-here d (inorder l) (inorder r) a.lower),
      omega (arith, n),
    )

module _ (x : ℕ) (l : Tree) (d : ℕ) (r : Tree) (a : Around (inorder l) d (inorder r)) where
  Removes-right :
      (o : Removed)
      → d < x
      → Removes x r o
      → Removes x (node l d r) (map_removed (λ t. node l d t) o)
  unfolding Removes
  Removes-right absent lt h = member-upper x d (inorder l) (inorder r) lt a.lower ∙ h
  Removes-right knotted lt h = inr (inr h)
  Removes-right (removed t) lt (m, e, n) = (
    member-upper x d (inorder l) (inorder r) lt a.lower ∙ m,
    ap (λ ys. inorder l ++ (d ∷ ys)) e ∙ sym (erase-upper x d (inorder l) (inorder r) lt a.lower),
    omega (arith, n),
  )

  Removes-left :
      (o : Removed)
      → x < d
      → Removes x l o
      → Removes x (node l d r) (map_removed (λ t. node t d r) o)
  unfolding Removes
  Removes-left absent lt h = member-lower x d (inorder l) (inorder r) lt a.upper ∙ h
  Removes-left knotted lt h = inr (inl h)
  Removes-left (removed t) lt (m, e, n) = (
    member-lower x d (inorder l) (inorder r) lt a.upper ∙ m,
    ap (λ xs. xs ++ (d ∷ inorder r)) e ∙ sym (erase-lower x d (inorder l) (inorder r) m),
    omega (arith, n),
  )

Removes-leaf : (x : ℕ) → Removes x leaf absent
unfolding Removes member
Removes-leaf x = refl

remove_tree-Removes : (x : ℕ) (t : Tree) → Sorted (inorder t) → Removes x t (remove_tree x t)
unfolding remove_tree
remove_tree-Removes x leaf h = Removes-leaf x
remove_tree-Removes x (node l d r) h =
    let a = Sorted-Around (inorder l) d (inorder r) h in
    elim (dec_lt d x) [
      | yes lt ↦
          let ne : (d == x) ≡ false = ground (arith, lt) in
          let less : ltb d x ≡ true = ground (arith, lt) in
          rw (ne, less)
            (Removes-right x l d r a (remove_tree x r) lt (remove_tree-Removes x r a.right))
      | no ge ↦ elim (dec_lt x d) [
        | yes lt ↦
            let ne : (d == x) ≡ false = ground (arith, lt) in
            let less : ltb d x ≡ false = ground (arith, lt) in
            rw (ne, less)
              (Removes-left x l d r a (remove_tree x l) lt (remove_tree-Removes x l a.left))
        | no le ↦
            let same : d ≡ x = omega (arith, ge, le) in
            let eq : (d == x) ≡ true = ground (arith, same) in
            rw eq (
              subst (λ z. Removes z (node l d r) (replacement l r)) same
                (replacement-Removes l d r a))
      ]
    ]

-- What remove promises of an object.
abbrev pub Removal : ℕ → Bst → Option (Bool × Bst) → Type 0
Removal x b none = HasKnot x b.root
Removal x b (some (done, b')) =
    (done ≡ member x (inorder b.root)) × IsBst b' × (inorder b'.root ≡ erase x (inorder b.root))

remove_outcome-Removal :
    (x : ℕ) (b : Bst) (o : Removed)
    → IsBst b
    → Removes x b.root o
    → Removal x b (remove_outcome b o)
unfolding Removes
remove_outcome-Removal x b absent h m = (sym m, h, sym (erase_missing x (inorder b.root) m))
remove_outcome-Removal x b knotted h m = m
remove_outcome-Removal x b (removed t) h (m, e, n) = (
  sym m,
  record {
    sorted = rw e (erase-Sorted x (inorder b.root) h.sorted);
    sized = omega (arith, n, h.sized, h.fits);
    fits = omega (arith, n, h.fits);
  },
  e,
)

-- remove returns whether the element was there, keeps the order and the count, and leaves all other
-- elements; only an element at a node that has both children, of which the right one has no left
-- child, can end with links that are no tree.
pub remove-Removal : (x : ℕ) (b : Bst) → IsBst b → Removal x b (remove x b)
unfolding remove
remove-Removal x b h =
    remove_outcome-Removal x b (remove_tree x b.root) h (remove_tree-Removes x b.root h.sorted)
