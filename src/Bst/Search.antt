-- ===== src/Bst/Search.antt =====
-- data_structure/BST.h: insert and find.
use native.Mathlib.Decide.{dec_lt}
use cpplearn.Common.{
  ℕ, suc, ◌^◌, ◌<◌, ◌≡◌, refl, sym, ap, ◌∙◌, true, false, not, ◌||◌, Option, none, some, ◌∷◌, ◌++◌,
  ◌==◌, ltb, arith,
}
use cpplearn.Bst.{
  Tree, leaf, node, Bst, nodes, map_tree, insert_tree, insert_outcome, insert, find_tree, find,
}
use cpplearn.Bst.Sorted.{
  Sorted, inorder, member, insert_sorted, Around, Sorted-Around, member-lower, member-upper,
  member-here, insert_sorted-lower, insert_sorted-upper, insert_sorted-member, insert_sorted-Sorted,
  member-insert_sorted,
}

-- The tree is in order, and m_size counts its nodes.
pub record IsBst (b : Bst) : Type 0 where
  pub sorted : Sorted (inorder b.root)
  pub sized : b.size ≡ nodes b.root
  pub fits : nodes b.root < 2 ^ 32

pub find_tree-member :
    (x : ℕ) (t : Tree) → Sorted (inorder t) → find_tree x t ≡ member x (inorder t)
unfolding find_tree member
find_tree-member x leaf h = refl
find_tree-member x (node l d r) h =
    let a = Sorted-Around (inorder l) d (inorder r) h in
    let left = find_tree-member x l a.left in
    let right = find_tree-member x r a.right in
    ground (
      arith,
      left,
      right,
      member-here x d (inorder l) (inorder r),
      λ (lt : x < d). member-lower x d (inorder l) (inorder r) lt a.upper,
      λ (lt : d < x). member-upper x d (inorder l) (inorder r) lt a.lower,
    )

-- What the loop of insert makes of a tree.
Inserted : ℕ → Tree → Option Tree → Type 0
Inserted x t none = member x (inorder t) ≡ true
Inserted x t (some t') =
    (member x (inorder t) ≡ false)
    × (inorder t' ≡ insert_sorted x (inorder t))
    × (nodes t' ≡ suc (nodes t))

module _ (x : ℕ) (l : Tree) (d : ℕ) (r : Tree) (a : Around (inorder l) d (inorder r)) where
  Inserted-right :
      (o : Option Tree)
      → d < x
      → Inserted x r o
      → Inserted x (node l d r) (map_tree (λ t. node l d t) o)
  unfolding Inserted
  Inserted-right none lt h = member-upper x d (inorder l) (inorder r) lt a.lower ∙ h
  Inserted-right (some t) lt (new, e, n) = (
    member-upper x d (inorder l) (inorder r) lt a.lower ∙ new,
    ap (λ ys. inorder l ++ (d ∷ ys)) e
        ∙ sym (insert_sorted-upper x d (inorder l) (inorder r) lt a.lower),
    omega (arith, n),
  )

  Inserted-left :
      (o : Option Tree)
      → x < d
      → Inserted x l o
      → Inserted x (node l d r) (map_tree (λ t. node t d r) o)
  unfolding Inserted
  Inserted-left none lt h = member-lower x d (inorder l) (inorder r) lt a.upper ∙ h
  Inserted-left (some t) lt (new, e, n) = (
    member-lower x d (inorder l) (inorder r) lt a.upper ∙ new,
    ap (λ xs. xs ++ (d ∷ inorder r)) e ∙ sym (insert_sorted-lower x d (inorder l) (inorder r) lt),
    omega (arith, n),
  )

insert_tree-Inserted : (x : ℕ) (t : Tree) → Sorted (inorder t) → Inserted x t (insert_tree x t)
unfolding insert_tree Inserted member insert_sorted
insert_tree-Inserted x leaf h = (refl, refl, refl)
insert_tree-Inserted x (node l d r) h =
    let a = Sorted-Around (inorder l) d (inorder r) h in
    elim (dec_lt d x) [
      | yes lt ↦
          let ne : (d == x) ≡ false = ground (arith, lt) in
          let less : ltb d x ≡ true = ground (arith, lt) in
          rw (ne, less)
            (Inserted-right x l d r a (insert_tree x r) lt (insert_tree-Inserted x r a.right))
      | no ge ↦ elim (dec_lt x d) [
        | yes lt ↦
            let ne : (d == x) ≡ false = ground (arith, lt) in
            let less : ltb d x ≡ false = ground (arith, lt) in
            rw (ne, less)
              (Inserted-left x l d r a (insert_tree x l) lt (insert_tree-Inserted x l a.left))
        | no le ↦
            let same : d ≡ x = omega (arith, ge, le) in
            let eq : (d == x) ≡ true = ground (arith, same) in
            rw eq (member-here x d (inorder l) (inorder r) same)
      ]
    ]

module _ (x : ℕ) (b : Bst) (h : IsBst b) (room : suc (nodes b.root) < 2 ^ 32) where
  insert_outcome-IsBst :
      (o : Option Tree)
      → Inserted x b.root o
      → ((insert_outcome b o).0 ≡ not (member x (inorder b.root)))
        × IsBst (insert_outcome b o).1
        × (inorder (insert_outcome b o).1.root ≡ insert_sorted x (inorder b.root))
  unfolding Inserted
  insert_outcome-IsBst none there =
      (rw there refl, h, sym (insert_sorted-member x (inorder b.root) h.sorted there))
  insert_outcome-IsBst (some t) (new, e, n) = (
    rw new refl,
    record {
      sorted = rw e (insert_sorted-Sorted x (inorder b.root) h.sorted);
      sized = omega (arith, n, h.sized, h.fits, room);
      fits = omega (arith, n, room);
    },
    e,
  )

  -- insert returns whether the element was missing, and keeps the tree in order and m_size the number
  -- of its nodes, of which there are fewer than 2^32; the elements are those of the tree before with
  -- the new one at its place in the order.
  pub insert-IsBst :
      ((insert x b).0 ≡ not (member x (inorder b.root)))
      × IsBst (insert x b).1
      × (inorder (insert x b).1.root ≡ insert_sorted x (inorder b.root))
  unfolding insert
  insert-IsBst =
      insert_outcome-IsBst (insert_tree x b.root) (insert_tree-Inserted x b.root h.sorted)

  -- Behind an insert, find finds the new element and whatever it found before, and nothing else.
  pub find-insert : (y : ℕ) → find y (insert x b).1 ≡ ((x == y) || find y b)
  find-insert y =
      let (done, bst, e) = insert-IsBst in
      find_tree-member y (insert x b).1.root bst.sorted
      ∙ ap (member y) e
      ∙ member-insert_sorted x y (inorder b.root)
      ∙ ap (λ found. (x == y) || found) (sym (find_tree-member y b.root h.sorted))
