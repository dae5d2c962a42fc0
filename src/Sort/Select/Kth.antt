-- ===== src/Sort/Select/Kth.antt =====
-- algorithm/qselect.h: what randomized_select gives is what stands at the place in the sorted vector.
use native.Mathlib.Decide.{ℕ_discrete, dec_lt}
use native.Mathlib.Nat.{mod-lt}
use cpplearn.Common.{
  ℕ, zero, suc, ◌+◌, ◌-◌, ◌%◌, ◌^◌, ◌≤◌, ◌<◌, ◌≡◌, sym, ap, ◌∙◌, true, false, Option, some, List,
  length, ◌==◌, ltb, leb, arith,
}
use cpplearn.Sort.{at, qsort}
use cpplearn.Sort.Arrays.{
  count, InRange, Rearranged, swap-Rearranged, Rearranged-refl, Rearranged-trans,
}
use cpplearn.Sort.Partition.{Split, partition_from-Split}
use cpplearn.Sort.Quick.{qsort-Ascending}
use cpplearn.Sort.Select.{
  random_pivot, randomized_partition, select_loop, at_most, randomized_select,
}
use cpplearn.Sort.Select.Rank.{Cut-Rank, Rank-unique}
use cpplearn.Sort.Select.Order.{Cut, Cut-begin, Cut-end, Cut-pivot, Cut-pivot_next}

random_pivot-Rearranged :
    (begin end r : ℕ) (xs : List ℕ)
    → begin ≤ end
    → end < length xs
    → Rearranged begin end xs (random_pivot xs begin end r)
unfolding random_pivot
random_pivot-Rearranged begin end r xs le within = elim (dec_lt begin end) [
  | no ge ↦
      let test : ltb begin end ≡ false = ground (arith, ge) in
      rw test (Rearranged-refl begin end xs)
  | yes lt ↦
      let test : ltb begin end ≡ true = ground (arith, lt) in
      let m : ℕ = r % (end - begin + 1) + begin in
      let rest : r % (end - begin + 1) < end - begin + 1 = mod-lt r (omega arith) in
      let rm : InRange begin end m = omega (arith, rest, lt) in
      rw test (
        swap-Rearranged xs m begin (omega (arith, rm, within)) (omega (arith, le, within)) begin end
          rm (omega (arith, le)))
]

randomized_partition-Split :
    (begin end r : ℕ) (xs : List ℕ)
    → begin ≤ end
    → end < length xs
    → (p : ℕ) × Split begin end p xs
        (randomized_partition xs begin end r).0
        (randomized_partition xs begin end r).1
unfolding randomized_partition
randomized_partition-Split begin end r xs le within =
    let chosen = random_pivot-Rearranged begin end r xs le within in
    let s =
      partition_from-Split begin end (random_pivot xs begin end r) le
        (omega (arith, within, chosen.same_length)) in
    (
      _,
      record {
        rearranged = Rearranged-trans begin end _ _ _ chosen s.rearranged;
        inside = s.inside;
        pivot_at = s.pivot_at;
        below = s.below;
        above = s.above;
      },
    )

-- A run of the loop that selects what stands between two cuts at the place.
record Selects (q : ℕ) (xs : List ℕ) (o : Option (ℕ × List ℕ)) : Type 0 where
  vector : List ℕ
  result : o ≡ some (at vector q, vector)
  same_length : length vector ≡ length xs
  same_count : (a : ℕ) → count a vector ≡ count a xs
  low : Cut q vector
  high : Cut (suc q) vector

Selects-after :
    (q begin end : ℕ) (xs ys : List ℕ) (o : Option (ℕ × List ℕ))
    → Rearranged begin end xs ys
    → Selects q ys o
    → Selects q xs o
Selects-after q begin end xs ys o r s = record {
  vector = s.vector;
  result = s.result;
  same_length = s.same_length ∙ r.same_length;
  same_count = λ a. s.same_count a ∙ r.same_count a;
  low = s.low;
  high = s.high;
}

select_loop-Selects :
    (chosen : ℕ → ℕ) (fuel : ℕ) (xs : List ℕ) (begin end k pos q : ℕ)
    → begin ≤ end
    → end < length xs
    → length xs < 2 ^ 64
    → end - begin < fuel
    → q + 1 ≡ begin + k
    → begin ≤ q
    → q ≤ end
    → Cut begin xs
    → Cut (suc end) xs
    → Selects q xs (select_loop chosen fuel xs begin end k pos)
unfolding select_loop
select_loop-Selects chosen zero xs begin end k pos q le last fits enough place from upto low high =
    absurd (omega (arith, enough))
select_loop-Selects chosen (suc fuel) xs begin end k pos q le last fits enough place from upto low
      high =
    let parts = randomized_partition xs begin end (chosen fuel) in
    let (p, s) = randomized_partition-Split begin end (chosen fuel) xs le last in
    let cut = Cut-pivot begin end p xs parts.0 parts.1 s last low high in
    let next = Cut-pivot_next begin end p xs parts.0 parts.1 s last low high in
    let size = s.rearranged.same_length in
    let test : leb begin end ≡ true = ground (arith, le) in
    elim (ℕ_discrete q parts.1) [
      | yes here ↦
          let stop : (k == parts.1 - begin + 1) ≡ true = ground (arith, here, place, s.inside) in
          rw (test, stop)
            record {
              vector = parts.0;
              result = ap (λ c. some (at parts.0 c, parts.0)) (sym here);
              same_length = size;
              same_count = s.rearranged.same_count;
              low = rw here cut;
              high = rw here next;
            }
      | no apart ↦
          let on : (k == parts.1 - begin + 1) ≡ false = ground (arith, apart, place, s.inside) in
          elim (dec_lt q parts.1) [
            | yes lt ↦
                let less : ltb k (parts.1 - begin + 1) ≡ true =
                  ground (arith, lt, place, s.inside) in
                let before : (parts.1 + 2 ^ 64 - 1) % 2 ^ 64 ≡ parts.1 - 1 =
                  omega (arith, lt, s.inside, last, fits) in
                rw (test, on, less, before)
                  (Selects-after q begin end xs parts.0 _ s.rearranged (
                    select_loop-Selects chosen fuel parts.0 begin (parts.1 - 1) k parts.1 q
                      (omega (arith, from, lt)) (omega (arith, s.inside, last, size))
                      (omega (arith, size, fits)) (omega (arith, enough, lt, s.inside)) place from
                      (omega (arith, lt)) (Cut-begin begin end p xs parts.0 parts.1 s last low high)
                      (let same : suc (parts.1 - 1) ≡ parts.1 = omega (arith, lt) in rw same cut)))
            | no ge ↦
                let more : ltb k (parts.1 - begin + 1) ≡ false =
                  ground (arith, ge, place, s.inside) in
                rw (test, on, more)
                  (Selects-after q begin end xs parts.0 _ s.rearranged (
                    select_loop-Selects chosen fuel parts.0 (parts.1 + 1) end
                      (k - (parts.1 - begin + 1)) parts.1 q (omega (arith, upto, apart, ge))
                      (omega (arith, last, size)) (omega (arith, size, fits))
                      (omega (arith, enough, apart, ge, upto, s.inside))
                      (omega (arith, place, apart, ge, s.inside)) (omega (arith, apart, ge)) upto
                      (let same : parts.1 + 1 ≡ suc parts.1 = omega arith in rw same next)
                      (Cut-end begin end p xs parts.0 parts.1 s last low high)))
          ]
    ]

-- The number that randomized_select gives, whatever rand returns, is the one that qsort puts at the
-- place k - 1, or last if there are fewer than k numbers; and the vector keeps its numbers, each as
-- often. The vector is not empty, shorter than 2 ^ 64, and k is at least 1.
pub randomized_select-qsort :
    (chosen : ℕ → ℕ) (nums : List ℕ) (k : ℕ)
    → 0 < length nums
    → length nums < 2 ^ 64
    → 0 < k
    → (ys : List ℕ) × (zs : List ℕ) × (qsort nums ≡ some ys)
      × (randomized_select chosen nums k ≡ some (at ys (at_most (length nums) k - 1), zs))
      × ((a : ℕ) → count a zs ≡ count a nums)
unfolding randomized_select
randomized_select-qsort chosen nums k some_there fits pos =
    let (ys, e, same, size, ascending) = qsort-Ascending nums some_there in
    let bounds : (0 < at_most (length nums) k) × (at_most (length nums) k ≤ length nums) =
      ground (arith, pos, some_there) in
    let q : ℕ = at_most (length nums) k - 1 in
    let s =
      select_loop-Selects chosen (length nums) nums 0 (length nums - 1) (at_most (length nums) k) 0
        q (omega arith) (omega (arith, some_there)) fits (omega (arith, some_there))
        (omega (arith, bounds)) (omega arith) (omega (arith, bounds))
        (λ i j before. absurd (omega (arith, before)))
        (λ i j before behind within. absurd (omega (arith, behind, within))) in
    let cut : (c : ℕ) → Cut c ys = λ c i j before behind within.
      ascending i j (omega arith) (omega (arith, before, behind)) (omega (arith, within, size)) in
    let there =
      Rank-unique q (at s.vector q) (at ys q) s.vector ys (λ a. s.same_count a ∙ sym (same a))
        (Cut-Rank q s.vector (omega (arith, bounds, s.same_length)) s.low s.high)
        (Cut-Rank q ys (omega (arith, bounds, size)) (cut q) (cut (suc q))) in
    let none_there : (length nums == 0) ≡ false = ground (arith, some_there) in
    let none_asked : (k == 0) ≡ false = ground (arith, pos) in
    (
      ys,
      s.vector,
      e,
      rw (none_there, none_asked) (s.result ∙ ap (λ v. some (v, s.vector)) there),
      s.same_count,
    )
