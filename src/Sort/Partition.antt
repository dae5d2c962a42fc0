-- ===== src/Sort/Partition.antt =====
-- algorithm/qsort.h: what partition does to a range.
use native.Mathlib.Decide.{ℕ_discrete, dec_lt}
use cpplearn.Common.{
  ℕ, zero, suc, ◌+◌, ◌-◌, ◌≤◌, ◌<◌, ◌≡◌, ◌⊎◌, inr, refl, ap, true, false, List, length,
  if◌then◌else◌, ◌==◌, ltb, arith,
}
use cpplearn.Sort.{at, swap, partition_loop, partition_from}
use cpplearn.Sort.Arrays.{
  InRange, Rearranged, length-swap, at-swap, swap-Rearranged, Rearranged-refl, Rearranged-trans,
}

-- The loop at `cur`: the pivot is at `begin`, then the smaller numbers up to `pos`, then the others.
record Going (begin end pivot : ℕ) (xs : List ℕ) (cur pos : ℕ) : Type 0 where
  bounds :
      (begin ≤ pos)
      × (pos ≤ end)
      × (cur ≤ end + 1)
      × ((pos < cur) ⊎ ((pos ≡ begin) × (cur ≡ begin)))
  within : end < length xs
  first : at xs begin ≡ pivot
  smaller : (i : ℕ) → begin < i → i ≤ pos → at xs i < pivot
  others : (i : ℕ) → pos < i → i < cur → pivot ≤ at xs i

Going-skip :
    (begin end pivot : ℕ) (xs : List ℕ) (cur pos : ℕ)
    → Going begin end pivot xs cur pos
    → cur ≤ end
    → pivot ≤ at xs cur
    → Going begin end pivot xs (cur + 1) pos
Going-skip begin end pivot xs cur pos g le ge = record {
  bounds = omega (arith, g.bounds);
  within = g.within;
  first = g.first;
  smaller = g.smaller;
  others = λ i after before. elim (ℕ_discrete i cur) [
    | yes e ↦ rw e ge
    | no ne ↦ g.others i after (omega (arith, before, ne))
  ];
}

-- A smaller number is behind the pivot.
Going-apart :
    (begin end pivot : ℕ) (xs : List ℕ) (cur pos : ℕ)
    → Going begin end pivot xs cur pos
    → at xs cur < pivot
    → pos < cur
Going-apart begin end pivot xs cur pos g lt = elim (ℕ_discrete cur begin) [
  | yes e ↦
      absurd (omega (arith, lt, g.first, let here : at xs cur ≡ at xs begin = ap (at xs) e in here))
  | no ne ↦ omega (arith, ne, g.bounds)
]

Going-swap :
    (begin end pivot : ℕ) (xs : List ℕ) (cur pos : ℕ)
    → Going begin end pivot xs cur pos
    → cur ≤ end
    → at xs cur < pivot
    → Going begin end pivot (swap xs (pos + 1) cur) (cur + 1) (pos + 1)
Going-swap begin end pivot xs cur pos g le lt =
    let apart : pos < cur = Going-apart begin end pivot xs cur pos g lt in
    let read =
      at-swap xs (pos + 1) cur (omega (arith, apart, le, g.within)) (omega (arith, le, g.within)) in
    record {
      bounds = omega (arith, apart, le, g.bounds);
      within =
          rw
            (length-swap xs (pos + 1) cur (omega (arith, apart, le, g.within))
              (omega (arith, le, g.within)))
            g.within;
      first = ground (arith, read begin, apart, g.bounds, g.first);
      smaller = λ i after upto. swapped_smaller i after upto (read i) apart;
      others = λ i after before. swapped_others i after before (read i) apart;
    }
  where
    swapped_smaller :
        (i : ℕ)
        → begin < i
        → i ≤ pos + 1
        → at (swap xs (pos + 1) cur) i
          ≡ (if cur == i then at xs (pos + 1) else if pos + 1 == i then at xs cur else at xs i)
        → pos < cur
        → at (swap xs (pos + 1) cur) i < pivot
    swapped_smaller i after upto read apart = elim (ℕ_discrete cur (pos + 1)) [
      | yes e ↦ ground (arith, read, lt, g.smaller i, ap (at xs) e)
      | no ne ↦ ground (arith, read, lt, g.smaller i)
    ]

    swapped_others :
        (i : ℕ)
        → pos + 1 < i
        → i < cur + 1
        → at (swap xs (pos + 1) cur) i
          ≡ (if cur == i then at xs (pos + 1) else if pos + 1 == i then at xs cur else at xs i)
        → pos < cur
        → pivot ≤ at (swap xs (pos + 1) cur) i
    swapped_others i after before read apart = ground (arith, read, g.others (pos + 1), g.others i)

partition_loop-Going :
    (rounds begin end pivot : ℕ) (xs : List ℕ) (cur pos : ℕ)
    → cur + rounds ≡ end + 1
    → Going begin end pivot xs cur pos
    → Going begin end pivot
        (partition_loop rounds cur pivot xs pos).0
        (end + 1)
        (partition_loop rounds cur pivot xs pos).1
      × Rearranged begin end xs (partition_loop rounds cur pivot xs pos).0
unfolding partition_loop
partition_loop-Going zero begin end pivot xs cur pos e g =
    let done : cur ≡ end + 1 = omega (arith, e) in (rw done at g, Rearranged-refl begin end xs)
partition_loop-Going (suc rounds) begin end pivot xs cur pos e g = elim (dec_lt (at xs cur) pivot) [
  | yes lt ↦
      let test : ltb (at xs cur) pivot ≡ true = ground (arith, lt) in
      let le : cur ≤ end = omega (arith, e) in
      let apart : pos < cur = Going-apart begin end pivot xs cur pos g lt in
      let (g', moved) =
        partition_loop-Going rounds begin end pivot (swap xs (pos + 1) cur) (cur + 1) (pos + 1)
          (omega (arith, e)) (Going-swap begin end pivot xs cur pos g le lt) in
      let swapped =
        swap-Rearranged xs (pos + 1) cur (omega (arith, apart, le, g.within))
          (omega (arith, le, g.within)) begin end
          (omega (arith, g.bounds), omega (arith, apart, le))
          (omega (arith, apart, g.bounds), le) in
      rw test (g', Rearranged-trans begin end _ _ _ swapped moved)
  | no ge ↦
      let test : ltb (at xs cur) pivot ≡ false = ground (arith, ge) in
      rw test (
        partition_loop-Going rounds begin end pivot xs (cur + 1) pos (omega (arith, e))
          (Going-skip begin end pivot xs cur pos g (omega (arith, e)) (omega (arith, ge))))
]

-- After the pivot `p` is put at `pos`.
pub record Split (begin end p : ℕ) (xs ys : List ℕ) (pos : ℕ) : Type 0 where
  pub rearranged : Rearranged begin end xs ys
  pub inside : InRange begin end pos
  pub pivot_at : at ys pos ≡ p
  pub below : (i : ℕ) → begin ≤ i → i < pos → at ys i < p
  pub above : (i : ℕ) → pos < i → i ≤ end → p ≤ at ys i

-- The last swap.
place-Split :
    (begin end p : ℕ) (xs zs : List ℕ) (pos : ℕ)
    → Going begin end p zs (end + 1) pos
    → Rearranged begin end xs zs
    → Split begin end p xs (swap zs pos begin) pos
place-Split begin end p xs zs pos g moved =
    let hp : pos < length zs = omega (arith, g.bounds, g.within) in
    let hb : begin < length zs = omega (arith, g.bounds, g.within) in
    let read = at-swap zs pos begin hp hb in
    record {
      rearranged = Rearranged-trans begin end _ _ _ moved (
          swap-Rearranged zs pos begin hp hb begin end (omega (arith, g.bounds))
            (omega (arith, g.bounds)));
      inside = omega (arith, g.bounds);
      pivot_at = elim (ℕ_discrete begin pos) [
        | yes e ↦ ground (arith, read pos, g.first, ap (at zs) e)
        | no ne ↦ ground (arith, read pos, g.first)
      ];
      below = λ i from upto. ground (arith, read i, g.smaller i, g.smaller pos);
      above = λ i from upto. ground (arith, read i, g.others i, g.bounds);
    }

pub partition_from-Split :
    (begin end : ℕ) (xs : List ℕ)
    → begin ≤ end
    → end < length xs
    → Split begin end
        (at xs begin)
        xs
        (partition_from xs begin end).0
        (partition_from xs begin end).1
unfolding partition_from
partition_from-Split begin end xs le within =
    let (g, moved) =
      partition_loop-Going (end + 1 - begin) begin end (at xs begin) xs begin begin
        (omega (arith, le))
        (record {
          bounds = (omega arith, le, omega (arith, le), inr (refl, refl));
          within = within;
          first = refl;
          smaller = λ i from upto. absurd (omega (arith, from, upto));
          others = λ i from upto. absurd (omega (arith, from, upto));
        }) in
    place-Split begin end (at xs begin) xs _ _ g moved
