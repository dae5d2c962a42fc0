-- ===== src/Sort/Select/Heap/Smallest.antt =====
-- algorithm/qselect.h: what heap_select gives.
use native.Mathlib.Decide.{ℕ_discrete, dec_lt}
use cpplearn.Common.{
  ℕ, suc, ◌+◌, ◌-◌, ◌%◌, ◌^◌, ◌≤◌, ◌<◌, ◌≡◌, ◌⊎◌, inl, inr, refl, ap, ◌∙◌, true, false, some, List,
  [], ◌∷◌, length, ◌==◌, ltb, leb, arith,
}
use cpplearn.Sort.{at, qsort}
use cpplearn.Sort.Arrays.{count}
use cpplearn.Sort.Quick.{qsort-Ascending}
use cpplearn.Sort.Select.{at_most}
use cpplearn.Sort.Select.Order.{Cut}
use cpplearn.Sort.Select.Rank.{Rank, Rank-unique, Cut-Rank, parts-Rank}
use cpplearn.Sort.Select.Heap.{PriorityQueue, offer, heap_loop, heap_select}

count-length : (a : ℕ) (xs : List ℕ) → count a xs ≤ length xs
count-length a [] = omega arith
count-length a (x ∷ xs) = grind (arith, count-length a xs)

module _ (H : Type 0) (queue : PriorityQueue H) where
  -- The heap holds the `k` smallest of the numbers seen, or all; `discarded` are the others.
  record Smallest (k : ℕ) (heap : H) (discarded seen : List ℕ) : Type 0 where
    parts : (a : ℕ) → count a (queue.elements heap) + count a discarded ≡ count a seen
    sized : length (queue.elements heap) + length discarded ≡ length seen
    bounded : length (queue.elements heap) ≤ k
    full : (length discarded ≡ 0) ⊎ (length (queue.elements heap) ≡ k)
    greater : (d a : ℕ) → 0 < count d discarded → 0 < count a (queue.elements heap) → a ≤ d

  module _ (k : ℕ) (pos : 0 < k) (elem : ℕ) (heap : H) (discarded seen : List ℕ)
      (s : Smallest k heap discarded seen) where
    offer-push : length seen < k → Smallest k (queue.push elem heap) discarded (elem ∷ seen)
    offer-push room =
        let size = queue.push_length elem heap in
        let none_out : length discarded ≡ 0 = omega (arith, s.full, s.sized, room) in
        record {
          parts = λ a. omega (arith, queue.push_count a elem heap, s.parts a);
          sized = omega (arith, size, s.sized);
          bounded = omega (arith, size, s.sized, room);
          full = inl none_out;
          greater = λ d a hd ha. absurd (omega (arith, hd, count-length d discarded, none_out));
        }

    offer-replace :
        k ≤ length seen
        → elem < queue.top heap
        → Smallest k (queue.push elem (queue.pop heap)) (queue.top heap ∷ discarded) (elem ∷ seen)
    offer-replace over less =
        let there : length (queue.elements heap) ≡ k =
          omega (arith, s.full, s.sized, s.bounded, over) in
        let some_there : 0 < length (queue.elements heap) = omega (arith, there, pos) in
        let size = queue.push_length elem (queue.pop heap) in
        let popped = queue.pop_length heap some_there in
        record {
          parts = λ a. omega (
            arith,
            queue.push_count a elem (queue.pop heap),
            queue.pop_count a heap some_there,
            s.parts a,
          );
          sized = omega (arith, size, popped, s.sized);
          bounded = omega (arith, size, popped, s.bounded);
          full = inr (omega (arith, size, popped, there));
          greater = λ d a hd ha.
              let a_le : a ≤ queue.top heap = elim (ℕ_discrete elem a) [
                | yes e ↦ omega (arith, e, less)
                | no ne ↦
                    let pushed = queue.push_count a elem (queue.pop heap) in
                    let before = queue.pop_count a heap some_there in
                    queue.top_greatest a heap (ground (arith, ha, pushed, before, ne))
              ] in
              let d_ge : queue.top heap ≤ d = elim (ℕ_discrete (queue.top heap) d) [
                | yes e ↦ omega (arith, e)
                | no ne ↦
                    s.greater d (queue.top heap) (ground (arith, hd, ne))
                      (ground (arith, queue.pop_count (queue.top heap) heap some_there))
              ] in
              omega (arith, a_le, d_ge);
        }

    offer-keep :
        k ≤ length seen → queue.top heap ≤ elem → Smallest k heap (elem ∷ discarded) (elem ∷ seen)
    offer-keep over ge = record {
      parts = λ a. omega (arith, s.parts a);
      sized = omega (arith, s.sized);
      bounded = s.bounded;
      full = inr (omega (arith, s.full, s.sized, s.bounded, over));
      greater = λ d a hd ha. elim (ℕ_discrete elem d) [
        | yes e ↦ omega (arith, e, ge, queue.top_greatest a heap ha)
        | no ne ↦ s.greater d a (ground (arith, hd, ne)) ha
      ];
    }

  -- The numbers that the loop has seen at its end, and those of them that are not in the heap.
  record Ends (k : ℕ) (heap : H) (seen rest : List ℕ) : Type 0 where
    discarded : List ℕ
    all : List ℕ
    smallest : Smallest k heap discarded all
    same_count : (a : ℕ) → count a all ≡ count a seen + count a rest
    same_length : length all ≡ length seen + length rest

  Ends-next :
      (k elem : ℕ) (heap : H) (seen rest : List ℕ)
      → Ends k heap (elem ∷ seen) rest
      → Ends k heap seen (elem ∷ rest)
  Ends-next k elem heap seen rest e = record {
    discarded = e.discarded;
    all = e.all;
    smallest = e.smallest;
    same_count = λ a. omega (arith, e.same_count a);
    same_length = omega (arith, e.same_length);
  }

  offer-Smallest :
      (k : ℕ) (pos : 0 < k) (elem ordinal : ℕ) (heap : H) (discarded seen : List ℕ)
      → ordinal ≡ suc (length seen)
      → Smallest k heap discarded seen
      → (ds : List ℕ) × Smallest k (offer H queue k ordinal elem heap) ds (elem ∷ seen)
  unfolding offer
  offer-Smallest k pos elem ordinal heap discarded seen at_seen s = elim (dec_lt (length seen) k) [
    | yes room ↦
        let test : leb ordinal k ≡ true = ground (arith, at_seen, room) in
        rw test (discarded, offer-push k pos elem heap discarded seen s room)
    | no over ↦
        let test : leb ordinal k ≡ false = ground (arith, at_seen, over) in
        let enough : k ≤ length seen = omega (arith, over) in
        elim (dec_lt elem (queue.top heap)) [
          | yes less ↦
              let smaller : ltb elem (queue.top heap) ≡ true = ground (arith, less) in
              rw (test, smaller)
                (
                  queue.top heap ∷ discarded,
                  offer-replace k pos elem heap discarded seen s enough less,
                )
          | no ge ↦
              let other : ltb elem (queue.top heap) ≡ false = ground (arith, ge) in
              rw (test, other)
                (
                  elem ∷ discarded,
                  offer-keep k pos elem heap discarded seen s enough (omega (arith, ge)),
                )
        ]
  ]

  heap_loop-Ends :
      (k : ℕ) (pos : 0 < k) (rest : List ℕ) (ordinal : ℕ) (heap : H) (discarded seen : List ℕ)
      → length seen + length rest < 2 ^ 64
      → ordinal ≡ suc (length seen) % 2 ^ 64
      → Smallest k heap discarded seen
      → Ends k (heap_loop H queue k ordinal heap rest) seen rest
  unfolding heap_loop
  heap_loop-Ends k pos [] ordinal heap discarded seen fits at_seen s = record {
    discarded = discarded;
    all = seen;
    smallest = s;
    same_count = λ a. omega arith;
    same_length = omega arith;
  }
  heap_loop-Ends k pos (elem ∷ rest) ordinal heap discarded seen fits at_seen s =
      let here : ordinal ≡ suc (length seen) = omega (arith, fits, at_seen) in
      let (ds, s') = offer-Smallest k pos elem ordinal heap discarded seen here s in
      Ends-next k elem _ seen rest (
        heap_loop-Ends k pos rest ((ordinal + 1) % 2 ^ 64) (offer H queue k ordinal elem heap) ds
          (elem ∷ seen) (omega (arith, fits)) (omega (arith, here)) s')

  -- heap_select gives, over any queue that keeps these promises, the number that qsort puts at the place
  -- k - 1, or last if there are fewer than k numbers. The vector is not empty, shorter than 2 ^ 64, and k
  -- is at least 1.
  pub heap_select-qsort :
      (nums : List ℕ) (k : ℕ)
      → 0 < length nums
      → length nums < 2 ^ 64
      → 0 < k
      → (ys : List ℕ) × (qsort nums ≡ some ys)
        × (heap_select H queue nums k ≡ at ys (at_most (length nums) k - 1))
  unfolding heap_select
  heap_select-qsort nums k some_there fits pos =
      let (ys, e, same, size, ascending) = qsort-Ascending nums some_there in
      let new : Smallest k queue.empty [] [] = record {
        parts = λ a. rw queue.empty_elements refl;
        sized = rw queue.empty_elements refl;
        bounded = rw queue.empty_elements (omega arith);
        full = inl refl;
        greater = λ d a hd ha. absurd (omega (arith, hd));
      } in
      let r =
        heap_loop-Ends k pos nums 1 queue.empty [] [] (omega (arith, fits)) (omega arith) new in
      let heap = heap_loop H queue k 1 queue.empty nums in
      let s = r.smallest in
      let taken : length (queue.elements heap) ≡ at_most (length nums) k =
        ground (arith, s.sized, s.full, s.bounded, r.same_length) in
      let filled : 0 < length (queue.elements heap) = ground (arith, taken, some_there, pos) in
      let place : ℕ = length (queue.elements heap) - 1 in
      let within : place < length ys = omega (arith, s.sized, r.same_length, size, filled) in
      let selected : Rank place (queue.top heap) r.all =
        parts-Rank (queue.top heap) (queue.elements heap) r.discarded r.all s.parts
          (ground (arith, queue.pop_count (queue.top heap) heap filled))
          (λ a ha. queue.top_greatest a heap ha)
          (λ d hd.
            s.greater d (queue.top heap) hd
              (ground (arith, queue.pop_count (queue.top heap) heap filled))) in
      let cut : (c : ℕ) → Cut c ys = λ c i j before behind inside.
        ascending i j (omega arith) (omega (arith, before, behind)) (omega (arith, inside, size)) in
      let there =
        Rank-unique place (queue.top heap) (at ys place) r.all ys
          (λ a. omega (arith, r.same_count a, same a)) selected
          (Cut-Rank place ys within (cut place) (cut (suc place))) in
      let none_there : (length nums == 0) ≡ false = ground (arith, some_there) in
      let none_asked : (k == 0) ≡ false = ground (arith, pos) in
      (ys, e, rw (none_there, none_asked) (there ∙ ap (λ n. at ys (n - 1)) taken))
