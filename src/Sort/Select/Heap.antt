-- ===== src/Sort/Select/Heap.antt =====
-- algorithm/qselect.h: heap_select, over std::priority_queue.
pub mod Smallest
pub mod Greatest
use cpplearn.Common.{
  ℕ, suc, ◌+◌, ◌%◌, ◌^◌, ◌≤◌, ◌<◌, ◌≡◌, ◌||◌, List, [], ◌∷◌, length, if◌then◌else◌, ◌==◌, ltb, leb,
}
use cpplearn.Sort.Arrays.{count}

-- std::priority_queue: its operations, and what it holds behind each.
pub record PriorityQueue (H : Type 0) : Type 0 where
  pub empty : H
  pub push : ℕ → H → H
  pub pop : H → H
  pub top : H → ℕ
  pub elements : H → List ℕ
  pub empty_elements : elements empty ≡ []
  pub push_count :
      (a x : ℕ) (h : H)
      → count a (elements (push x h)) ≡ (if x == a then 1 else 0) + count a (elements h)
  pub push_length : (x : ℕ) (h : H) → length (elements (push x h)) ≡ suc (length (elements h))
  pub pop_count :
      (a : ℕ) (h : H)
      → 0 < length (elements h)
      → (if top h == a then 1 else 0) + count a (elements (pop h)) ≡ count a (elements h)
  pub pop_length :
      (h : H) → 0 < length (elements h) → suc (length (elements (pop h))) ≡ length (elements h)
  pub top_greatest : (a : ℕ) (h : H) → 0 < count a (elements h) → a ≤ top h

module _ (H : Type 0) (queue : PriorityQueue H) where
  -- The body of the loop.
  unfoldable pub offer : (k ordinal elem : ℕ) → H → H
  offer k ordinal elem heap =
      if leb ordinal k
      then queue.push elem heap
      else if ltb elem (queue.top heap)
      then queue.push elem (queue.pop heap)
      else heap

  unfoldable pub heap_loop : (k ordinal : ℕ) → H → List ℕ → H
  unfolding offer
  heap_loop k ordinal heap [] = heap
  heap_loop k ordinal heap (elem ∷ rest) =
      heap_loop k ((ordinal + 1) % 2 ^ 64) (offer k ordinal elem heap) rest

  unfoldable pub heap_select : List ℕ → ℕ → ℕ
  unfolding heap_loop
  heap_select nums k =
      if (length nums == 0) || (k == 0) then 0 else queue.top (heap_loop k 1 queue.empty nums)
