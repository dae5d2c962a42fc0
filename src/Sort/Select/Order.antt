-- ===== src/Sort/Select/Order.antt =====
-- algorithm/qselect.h: places that separate the smaller numbers of a vector from the greater ones.
use native.Mathlib.Decide.{ℕ_discrete, dec_lt}
use cpplearn.Common.{ℕ, suc, ◌≤◌, ◌<◌, ◌⊎◌, inl, inr, ap, List, length, arith}
use cpplearn.Sort.{at}
use cpplearn.Sort.Arrays.{InRange, Rearranged}
use cpplearn.Sort.Partition.{Split}

-- No number before the place is greater than one from there on.
abbrev pub Cut : ℕ → List ℕ → Type 0
Cut c xs = (i j : ℕ) → i < c → c ≤ j → j < length xs → at xs i ≤ at xs j

Inside-cases : (first last i : ℕ) → InRange first last i ⊎ (InRange first last i → ⊥)
Inside-cases first last i = elim (dec_lt i first) [
  | yes lt ↦ inr (λ q. omega (arith, q.0, lt))
  | no ge ↦ elim (dec_lt last i) [
    | yes gt ↦ inr (λ q. omega (arith, q.1, gt))
    | no le ↦ inl (omega (arith, ge, le))
  ]
]

-- A range that is rearranged has the same cuts outside.
module _ (begin end : ℕ) (xs ys : List ℕ) (r : Rearranged begin end xs ys) where
  pub Cut-before : (c : ℕ) → c ≤ begin → end < length xs → Cut c xs → Cut c ys
  Cut-before c le last h i j before behind within =
      let fixed = r.outside i (λ q. omega (arith, q.0, before, le)) in
      elim (Inside-cases begin end j) [
        | inl q ↦
            let (j', q', e) = r.from j q in
            omega (arith, fixed, e, h i j' before (omega (arith, q', le)) (omega (arith, q', last)))
        | inr out ↦ omega (
          arith,
          fixed,
          r.outside j out,
          h i j before behind (omega (arith, within, r.same_length)),
        )
      ]

  pub Cut-behind : (c : ℕ) → end < c → Cut c xs → Cut c ys
  Cut-behind c lt h i j before behind within =
      let fixed = r.outside j (λ q. omega (arith, q.1, behind, lt)) in
      let here : j < length xs = omega (arith, within, r.same_length) in
      elim (Inside-cases begin end i) [
        | inl q ↦
            let (i', q', e) = r.from i q in
            omega (arith, fixed, e, h i' j (omega (arith, q', lt)) behind here)
        | inr out ↦ omega (arith, fixed, r.outside i out, h i j before behind here)
      ]

-- The pivot stands between the smaller numbers and the others of its range, so that there is a cut on
-- either side of it if there is one on either side of the range.
module _ (begin end p : ℕ) (xs ys : List ℕ) (pos : ℕ) (s : Split begin end p xs ys pos)
    (last : end < length xs) (low : Cut begin xs) (high : Cut (suc end) xs) where
  pub Cut-begin : Cut begin ys
  Cut-begin = Cut-before begin end xs ys s.rearranged begin (omega arith) last low

  pub Cut-end : Cut (suc end) ys
  Cut-end = Cut-behind begin end xs ys s.rearranged (suc end) (omega arith) high

  pub Cut-pivot : Cut pos ys
  Cut-pivot i j before behind within = elim (dec_lt i begin) [
    | yes outside ↦ Cut-begin i j outside (omega (arith, behind, s.inside)) within
    | no inside ↦ elim (dec_lt end j) [
      | yes over ↦ Cut-end i j (omega (arith, before, s.inside)) over within
      | no under ↦ elim (ℕ_discrete pos j) [
        | yes here ↦
            omega (arith, s.below i (omega (arith, inside)) before, s.pivot_at, ap (at ys) here)
        | no apart ↦ omega (
          arith,
          s.below i (omega (arith, inside)) before,
          s.above j (omega (arith, behind, apart)) (omega (arith, under)),
        )
      ]
    ]
  ]

  pub Cut-pivot_next : Cut (suc pos) ys
  Cut-pivot_next i j before behind within = elim (ℕ_discrete i pos) [
    | no apart ↦ Cut-pivot i j (omega (arith, before, apart)) (omega (arith, behind)) within
    | yes here ↦ elim (dec_lt end j) [
      | yes over ↦ Cut-end i j (omega (arith, before, s.inside)) over within
      | no under ↦ omega (
        arith,
        s.above j (omega (arith, behind)) (omega (arith, under)),
        s.pivot_at,
        ap (at ys) here,
      )
    ]
  ]
