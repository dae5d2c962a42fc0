-- ===== src/Tests/Structures.antt =====
-- The ring of recv_engine, the algorithms and the binary search tree at concrete inputs.
use cpplearn.Common.Decimal.{decimal}
use cpplearn.Ring
use cpplearn.Ring.Queue
use cpplearn.Sort.{qsort, partition_loop, swap}
use cpplearn.Sort.Arrays.{count}
use cpplearn.Sort.Quick.{Ascending, qsort-Ascending}
use cpplearn.Sort.Select.{at_most, randomized_select}
use cpplearn.Sort.Select.Heap.{heap_select}
use cpplearn.Sort.Select.Heap.Smallest.{heap_select-qsort}
use cpplearn.Sort.Select.Heap.Greatest.{list_queue, remove_one}
use cpplearn.Sort.Select.Kth.{randomized_select-qsort}
use cpplearn.Sort.{at}
use cpplearn.Bst
use cpplearn.Bst.Sorted.{member, insert_sorted, inorder}
use cpplearn.Bst.Search.{IsBst, insert-IsBst}
use cpplearn.Bst.Remove.{Removal, remove-Removal}
use cpplearn.Bst.Walk.{traverse-inorder}
use cpplearn.Common.{
  ℕ, ◌-◌, ◌^◌, ◌≡◌, refl, true, false, not, none, some, List, [], ◌∷◌, codes, length, arith,
}

abbrev ring_calls : List Ring.Op
ring_calls =
    Ring.put 7
    ∷ Ring.put 8
    ∷ Ring.put 9
    ∷ Ring.get
    ∷ Ring.put 10
    ∷ Ring.get
    ∷ Ring.get
    ∷ Ring.get
    ∷ []

rw_ring-run_spec_example :
    (r : Ring.RwRing) × (Ring.create_rw_ring 2 true ≡ some r)
    × (Ring.run r ring_calls ≡ Ring.Queue.run_spec 2 [] ring_calls)
rw_ring-run_spec_example = Ring.Queue.rw_ring-run_spec 1 ring_calls (omega arith)

third_refused :
    Ring.Queue.run_spec 2 [] ring_calls
    ≡ Ring.accepted true
      ∷ Ring.accepted true
      ∷ Ring.accepted false
      ∷ Ring.got 7
      ∷ Ring.accepted true
      ∷ Ring.got 8
      ∷ Ring.got 10
      ∷ Ring.got 0
      ∷ []
unfolding Ring.Queue.run_spec
third_refused = refl

-- A size of 0 passes the test for a power of 2.
empty_ring :
    Ring.create_rw_ring 0 true
    ≡ some (record { size = 0; mask = 2 ^ 32 - 1; cons_indx = 0; prod_indx = 0; objs = [] })
unfolding Ring.create_rw_ring
empty_ring = refl

six_sorted : qsort (3 ∷ 1 ∷ 2 ∷ 3 ∷ 0 ∷ 5 ∷ []) ≡ some (0 ∷ 1 ∷ 2 ∷ 3 ∷ 3 ∷ 5 ∷ [])
unfolding qsort partition_loop swap
six_sorted = refl

qsort-Ascending_example :
    (ys : List ℕ) × (qsort (3 ∷ 1 ∷ 2 ∷ []) ≡ some ys)
    × ((a : ℕ) → count a ys ≡ count a (3 ∷ 1 ∷ 2 ∷ []))
    × (length ys ≡ 3)
    × Ascending 0 2 ys
qsort-Ascending_example = qsort-Ascending (3 ∷ 1 ∷ 2 ∷ []) (omega arith)

-- 2 with 1 on its left and 3 on its right.
abbrev three : Bst.Bst
three = record {
  root = Bst.node (Bst.node Bst.leaf 1 Bst.leaf) 2 (Bst.node Bst.leaf 3 Bst.leaf);
  size = 3;
}

three-IsBst : IsBst three
three-IsBst = record {
  sorted = ((omega arith, (omega arith, tt)), ((omega arith, tt), (tt, tt)));
  sized = refl;
  fits = omega arith;
}

three_inserted : (Bst.insert 3 (Bst.insert 1 (Bst.insert 2 Bst.empty_bst).1).1).1 ≡ three
unfolding Bst.insert
three_inserted = refl

insert-IsBst_example :
    ((Bst.insert 5 three).0 ≡ not (member 5 (inorder three.root)))
    × IsBst (Bst.insert 5 three).1
    × (inorder (Bst.insert 5 three).1.root ≡ insert_sorted 5 (inorder three.root))
insert-IsBst_example = insert-IsBst 5 three three-IsBst (omega arith)

remove-Removal_example : Removal 1 three (Bst.remove 1 three)
remove-Removal_example = remove-Removal 1 three three-IsBst

leaf_removed :
    Bst.remove 1 three
    ≡ some (true, record { root = Bst.node Bst.leaf 2 (Bst.node Bst.leaf 3 Bst.leaf); size = 2 })
unfolding Bst.remove
leaf_removed = refl

-- The right child has no left child: its right link leads to itself.
root_knotted : Bst.remove 2 three ≡ none
unfolding Bst.remove
root_knotted = refl

traverse-inorder_example : Bst.traverse three ≡ some (Bst.framed (inorder three.root))
traverse-inorder_example = traverse-inorder three three-IsBst

three_written : Bst.traverse three ≡ some (codes "{ [lxy::BST] 1 2 3 }")
unfolding Bst.traverse decimal
three_written = refl

randomized_select-qsort_example :
    (ys : List ℕ) × (zs : List ℕ) × (qsort (3 ∷ 1 ∷ 2 ∷ []) ≡ some ys)
    × (randomized_select (λ n. n) (3 ∷ 1 ∷ 2 ∷ []) 2 ≡ some (at ys (at_most 3 2 - 1), zs))
    × ((a : ℕ) → count a zs ≡ count a (3 ∷ 1 ∷ 2 ∷ []))
randomized_select-qsort_example =
    randomized_select-qsort (λ n. n) (3 ∷ 1 ∷ 2 ∷ []) 2 (omega arith) (omega arith) (omega arith)

heap_select-qsort_example :
    (ys : List ℕ) × (qsort (3 ∷ 1 ∷ 2 ∷ []) ≡ some ys)
    × (heap_select (List ℕ) list_queue (3 ∷ 1 ∷ 2 ∷ []) 2 ≡ at ys (at_most 3 2 - 1))
heap_select-qsort_example =
    heap_select-qsort (List ℕ) list_queue (3 ∷ 1 ∷ 2 ∷ []) 2 (omega arith) (omega arith)
      (omega arith)

second_of_four : heap_select (List ℕ) list_queue (4 ∷ 3 ∷ 1 ∷ 2 ∷ []) 2 ≡ 2
unfolding heap_select remove_one
second_of_four = refl
