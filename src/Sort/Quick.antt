-- ===== src/Sort/Quick.antt =====
-- algorithm/qsort.h: qsort ends, and its result is the vector in order.
use native.Mathlib.Decide.{ℕ_discrete, dec_lt}
use cpplearn.Common.{
  ℕ, zero, suc, ◌+◌, ◌-◌, ◌*◌, ◌/◌, ◌≤◌, ◌<◌, ◌≡◌, ◌≢◌, ◌⊎◌, inl, inr, refl, ap, ◌∙◌, true, false,
  Option, some, List, [], ◌∷◌, length, ltb, arith,
}
use cpplearn.Sort.{at, swap, median_position, median_of_three_pivot, partition, qsort_range, qsort}
use cpplearn.Sort.Arrays.{
  count, InRange, Rearranged, at-swap, length-swap, swap-Rearranged, Rearranged-refl,
  Rearranged-trans, Rearranged-widen,
}
use cpplearn.Sort.Partition.{Split, partition_from-Split}

-- The numbers from `first` to `last` are in order.
abbrev pub Ascending : (first last : ℕ) → List ℕ → Type 0
Ascending first last xs = (i j : ℕ) → first ≤ i → i ≤ j → j ≤ last → at xs i ≤ at xs j

-- The last number of the range is greater than all others.
abbrev Top : (begin end : ℕ) → List ℕ → Type 0
Top begin end xs = (i : ℕ) → begin ≤ i → i < end → at xs i < at xs end

module _ (begin end : ℕ) (xs : List ℕ) where
  median_position-InRange : begin ≤ end → InRange begin end (median_position xs begin end)
  unfolding median_position
  median_position-InRange le = ground arith

  -- The greatest number is not chosen.
  median_position-Top : begin < end → Top begin end xs → median_position xs begin end ≢ end
  unfolding median_position
  median_position-Top lt top = ground (arith, top ((begin + end) / 2))

  partition-Split :
      begin ≤ end
      → end < length xs
      → Split begin end
          (at xs (median_position xs begin end))
          xs
          (partition xs begin end).0
          (partition xs begin end).1
  unfolding partition median_of_three_pivot
  partition-Split le within =
      let m = median_position xs begin end in
      let rm = median_position-InRange le in
      let hm : m < length xs = omega (arith, rm.1, within) in
      let hb : begin < length xs = omega (arith, le, within) in
      let chosen : at (swap xs m begin) begin ≡ at xs m =
        ground (arith, at-swap xs m begin hm hb begin) in
      let s =
        partition_from-Split begin end (swap xs m begin) le
          (rw (length-swap xs m begin hm hb) within) in
      record {
        rearranged =
            Rearranged-trans begin end _ _ _
              (swap-Rearranged xs m begin hm hb begin end rm (omega arith, le)) s.rearranged;
        inside = s.inside;
        pivot_at = s.pivot_at ∙ chosen;
        below = λ i from upto. omega (arith, s.below i from upto, chosen);
        above = λ i from upto. omega (arith, s.above i from upto, chosen);
      }

  -- If the greatest number is last already, the pivot does not end there again.
  partition-Top :
      begin < end → end < length xs → Top begin end xs → (partition xs begin end).1 < end
  partition-Top lt within top =
      let s = partition-Split (omega (arith, lt)) within in
      let m = median_position xs begin end in
      let m_below : at xs m < at xs end = top m (median_position-InRange (omega (arith, lt))).0 (
        omega
          (arith, (median_position-InRange (omega (arith, lt))).1, median_position-Top lt top)) in
      let (j, rj, e) = s.rearranged.to end (omega (arith, lt), omega arith) in
      elim (dec_lt (partition xs begin end).1 end) [
        | yes less ↦ less
        | no ge ↦ elim (dec_lt j (partition xs begin end).1) [
          | yes before ↦ absurd (omega (arith, m_below, e, s.below j rj.0 before))
          | no at_pos ↦
              let same : j ≡ (partition xs begin end).1 =
                omega (arith, rj.1, s.inside.1, ge, at_pos) in
              absurd
                (omega (arith, m_below, e, s.pivot_at, ap (at (partition xs begin end).0) same))
        ]
      ]

-- The fuel that a range needs: one unit more if its greatest number is not known to be last.
Enough : (fuel begin end : ℕ) → List ℕ → Type 0
Enough fuel begin end xs =
    (2 * (end - begin) + 1 < fuel) ⊎ (Top begin end xs × (2 * (end - begin) < fuel))

-- What sorting a range means.
pub record IsSorted (begin end : ℕ) (xs ys : List ℕ) : Type 0 where
  pub rearranged : Rearranged begin end xs ys
  pub ascending : Ascending begin end ys

-- Both parts are sorted, one behind the other.
join-IsSorted :
    (begin end p : ℕ) (xs ys us vs : List ℕ) (pos : ℕ)
    → Split begin end p xs ys pos
    → IsSorted begin pos ys us
    → IsSorted (pos + 1) end us vs
    → IsSorted begin end xs vs
join-IsSorted begin end p xs ys us vs pos s left right = record {
  rearranged = Rearranged-trans begin end _ _ _ s.rearranged (
      Rearranged-trans begin end _ _ _
        (Rearranged-widen begin end begin pos ys us (omega arith) s.inside.1 left.rearranged)
        (Rearranged-widen begin end (pos + 1) end us vs (omega (arith, s.inside.0)) (omega arith)
          right.rearranged));
  ascending = λ i j from le upto. elim (dec_lt pos j) [
    | no nj ↦ omega (
      arith,
      low i (omega (arith, le, nj)),
      low j (omega (arith, nj)),
      left.ascending i j from le (omega (arith, nj)),
    )
    | yes hj ↦ elim (dec_lt pos i) [
      | yes hi ↦ right.ascending i j (omega (arith, hi)) le upto
      | no ni ↦
          omega
            (arith, low i (omega (arith, ni)), lower i from (omega (arith, ni)), upper j hj upto)
    ]
  ];
}
  where
    low : (i : ℕ) → i ≤ pos → at vs i ≡ at us i
    low i le = right.rearranged.outside i (λ r. omega (arith, r.0, le))

    lower : (i : ℕ) → begin ≤ i → i ≤ pos → at us i ≤ p
    lower i from le =
        let (j, rj, e) = left.rearranged.from i (from, le) in
        elim (ℕ_discrete j pos) [
          | yes same ↦ omega (arith, e, s.pivot_at, ap (at ys) same)
          | no ne ↦ omega (arith, e, s.below j rj.0 (omega (arith, rj.1, ne)))
        ]

    upper : (j : ℕ) → pos < j → j ≤ end → p ≤ at vs j
    upper j after upto =
        let (k, rk, e) = right.rearranged.from j (omega (arith, after), upto) in
        let kept = left.rearranged.outside k (λ r. omega (arith, r.1, rk.0)) in
        omega (arith, e, kept, s.above k (omega (arith, rk.0)) rk.1)

-- The fuel for the two parts.
module _ (fuel begin end p : ℕ) (xs ys : List ℕ) (pos : ℕ) (lt : begin < end)
    (s : Split begin end p xs ys pos) (moves : Top begin end xs → pos < end) where
  Enough-left : Enough (suc fuel) begin end xs → Enough fuel begin pos ys
  unfolding Enough
  Enough-left enough = elim (dec_lt pos end) [
    | yes less ↦ inl (left_part enough less)
    | no ge ↦ left_all enough (omega (arith, ge, s.inside.1))
  ]
    where
      left_part :
          (2 * (end - begin) + 1 < suc fuel) ⊎ (Top begin end xs × (2 * (end - begin) < suc fuel))
          → pos < end
          → 2 * (pos - begin) + 1 < fuel
      left_part (inl e) less = omega (arith, e, less, s.inside.0)
      left_part (inr (t, e)) less = omega (arith, e, less, s.inside.0)

      left_all :
          (2 * (end - begin) + 1 < suc fuel) ⊎ (Top begin end xs × (2 * (end - begin) < suc fuel))
          → pos ≡ end
          → (2 * (pos - begin) + 1 < fuel) ⊎ (Top begin pos ys × (2 * (pos - begin) < fuel))
      left_all (inl e) same =
          inr (
            (λ i from upto. omega (arith, s.below i from upto, s.pivot_at)),
            omega (arith, e, same),
          )
      left_all (inr (t, e)) same = absurd (omega (arith, moves t, same))

  Enough-right : (us : List ℕ) → Enough (suc fuel) begin end xs → Enough fuel (pos + 1) end us
  unfolding Enough
  Enough-right us (inl e) = inl (omega (arith, e, lt, s.inside.0))
  Enough-right us (inr (t, e)) = inl (omega (arith, e, lt, s.inside.0, moves t))

-- A run of the recursion that ends with a sorted range.
Sorts : (begin end : ℕ) → List ℕ → Option (List ℕ) → Type 0
Sorts begin end xs o = (ys : List ℕ) × (o ≡ some ys) × IsSorted begin end xs ys

qsort_range-Sorts :
    (fuel : ℕ) (xs : List ℕ) (begin end : ℕ)
    → end < length xs
    → Enough fuel begin end xs
    → Sorts begin end xs (qsort_range fuel xs begin end)
unfolding qsort_range Sorts Enough
qsort_range-Sorts zero xs begin end within enough = absurd (omega (arith, enough))
qsort_range-Sorts (suc fuel) xs begin end within enough = elim (dec_lt begin end) [
  | no ge ↦
      let test : ltb begin end ≡ false = ground (arith, ge) in
      rw test (
        xs,
        refl,
        record {
          rearranged = Rearranged-refl begin end xs;
          ascending = λ i j from le upto.
              let same : i ≡ j = omega (arith, ge, from, le, upto) in
              omega (arith, ap (at xs) same);
        },
      )
  | yes lt ↦
      let test : ltb begin end ≡ true = ground (arith, lt) in
      let s = partition-Split begin end xs (omega (arith, lt)) within in
      let moves = partition-Top begin end xs lt within in
      let (us, eu, left) =
        qsort_range-Sorts fuel (partition xs begin end).0 begin (partition xs begin end).1
          (omega (arith, s.inside.1, within, s.rearranged.same_length))
          (Enough-left fuel begin end _ xs _ _ lt s moves enough) in
      let (vs, ev, right) =
        qsort_range-Sorts fuel us ((partition xs begin end).1 + 1) end
          (omega (arith, within, s.rearranged.same_length, left.rearranged.same_length))
          (Enough-right fuel begin end _ xs _ _ lt s moves us enough) in
      rw (test, eu, ev) (vs, refl, join-IsSorted begin end _ xs _ us vs _ s left right)
]

-- qsort of a vector that is not empty ends, with a recursion of at most twice as many levels as there
-- are numbers;
-- its result has the same numbers,
-- each as often, in ascending order.
pub qsort-Ascending :
    (nums : List ℕ)
    → 0 < length nums
    → (ys : List ℕ) × (qsort nums ≡ some ys)
      × ((a : ℕ) → count a ys ≡ count a nums)
      × (length ys ≡ length nums)
      × Ascending 0 (length nums - 1) ys
unfolding qsort Sorts Enough
qsort-Ascending [] pos = absurd (omega (arith, pos))
qsort-Ascending (x ∷ nums) pos =
    let (ys, e, sorted) =
      qsort_range-Sorts (2 * length (x ∷ nums)) (x ∷ nums) 0 (length nums) (omega arith)
        (enough_for (length nums)) in
    let last : suc (length nums) - 1 ≡ length nums = omega arith in
    (ys, e, sorted.rearranged.same_count, sorted.rearranged.same_length, rw last sorted.ascending)
  where
    enough_for : (n : ℕ) → Enough (2 * suc n) 0 n (x ∷ nums)
    enough_for n = inl (omega arith)
