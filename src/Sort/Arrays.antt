-- ===== src/Sort/Arrays.antt =====
-- algorithm/qsort.h: what swaps inside a range do to a vector.
use native.Mathlib.Decide.{ℕ_discrete, dec_lt}
use cpplearn.Common.{
  ℕ, zero, suc, ◌+◌, ◌≤◌, ◌<◌, ◌≡◌, ◌≢◌, refl, sym, ◌∙◌, List, [], ◌∷◌, length, if◌then◌else◌, ◌==◌,
  arith, set, length-set, get_or-set,
}
use cpplearn.Sort.{at, swap}

-- How often a number occurs.
abbrev pub count : ℕ → List ℕ → ℕ
count a [] = 0
count a (x ∷ xs) = (if x == a then 1 else 0) + count a xs

abbrev pub InRange : (first last i : ℕ) → Type 0
InRange first last i = (first ≤ i) × (i ≤ last)

-- `ys` is `xs` with the numbers from `first` to `last` rearranged among themselves.
pub record Rearranged (first last : ℕ) (xs ys : List ℕ) : Type 0 where
  pub same_length : length ys ≡ length xs
  pub same_count : (a : ℕ) → count a ys ≡ count a xs
  pub outside : (i : ℕ) → (InRange first last i → ⊥) → at ys i ≡ at xs i
  pub from : (i : ℕ) → InRange first last i → (j : ℕ) × InRange first last j × (at ys i ≡ at xs j)
  pub to : (i : ℕ) → InRange first last i → (j : ℕ) × InRange first last j × (at xs i ≡ at ys j)

count-set :
    (a : ℕ) (xs : List ℕ) (i v : ℕ)
    → i < length xs
    → count a (set xs i v) + (if at xs i == a then 1 else 0)
      ≡ count a xs + (if v == a then 1 else 0)
count-set a [] i v h = absurd (omega arith)
count-set a (x ∷ xs) zero v h = omega arith
count-set a (x ∷ xs) (suc i) v h = omega (arith, count-set a xs i v (omega arith))

module _ (xs : List ℕ) (i j : ℕ) (hi : i < length xs) (hj : j < length xs) where
  pub at-swap :
      (c : ℕ)
      → at (swap xs i j) c ≡ (if j == c then at xs i else if i == c then at xs j else at xs c)
  unfolding swap
  at-swap c =
      rw
        (
          get_or-set (set xs i (at xs j)) j c (at xs i) 0 (rw (length-set) hj),
          get_or-set xs i c (at xs j) 0 hi,
        )
        refl

  pub length-swap : length (swap xs i j) ≡ length xs
  unfolding swap
  length-swap = rw (length-set, length-set) refl

  count-swap : (a : ℕ) → count a (swap xs i j) ≡ count a xs
  unfolding swap
  count-swap a =
      let b = set xs i (at xs j) in
      let kept : at b j ≡ at xs j = ground (arith, get_or-set xs i j (at xs j) 0 hi) in
      let second = count-set a b j (at xs i) (rw (length-set) hj) in
      omega (arith, count-set a xs i (at xs j) hi, rw kept at second)

  swap-outside : (c : ℕ) → i ≢ c → j ≢ c → at (swap xs i j) c ≡ at xs c
  swap-outside c ni nj = ground (arith, at-swap c)

  -- Where the number at a place comes from.
  swap_from :
      (first last c : ℕ)
      → InRange first last i
      → InRange first last j
      → InRange first last c
      → (d : ℕ) × InRange first last d
        × (at (swap xs i j) c ≡ at xs d)
        × (at xs c ≡ at (swap xs i j) d)
  swap_from first last c ri rj rc = elim (ℕ_discrete j c) [
    | yes e ↦ (i, ri, ground (arith, at-swap c), ground (arith, at-swap i))
    | no nj ↦ elim (ℕ_discrete i c) [
      | yes e ↦ (j, rj, ground (arith, at-swap c), ground (arith, at-swap j))
      | no ni ↦ (c, rc, swap-outside c ni nj, sym (swap-outside c ni nj))
    ]
  ]

  pub swap-Rearranged :
      (first last : ℕ)
      → InRange first last i
      → InRange first last j
      → Rearranged first last xs (swap xs i j)
  swap-Rearranged first last ri rj = record {
    same_length = length-swap;
    same_count = count-swap;
    outside = λ c out. swap-outside c (λ e. out (rw e at ri)) (λ e. out (rw e at rj));
    from = λ c rc. let (d, rd, e, e') = swap_from first last c ri rj rc in (d, rd, e);
    to = λ c rc. let (d, rd, e, e') = swap_from first last c ri rj rc in (d, rd, e');
  }

pub Rearranged-refl : (first last : ℕ) (xs : List ℕ) → Rearranged first last xs xs
Rearranged-refl first last xs = record {
  same_length = refl;
  same_count = λ a. refl;
  outside = λ i out. refl;
  from = λ i r. (i, r, refl);
  to = λ i r. (i, r, refl);
}

pub Rearranged-trans :
    (first last : ℕ) (xs ys zs : List ℕ)
    → Rearranged first last xs ys
    → Rearranged first last ys zs
    → Rearranged first last xs zs
Rearranged-trans first last xs ys zs p q = record {
  same_length = q.same_length ∙ p.same_length;
  same_count = λ a. q.same_count a ∙ p.same_count a;
  outside = λ i out. q.outside i out ∙ p.outside i out;
  from = λ i r. let (j, rj, e) = q.from i r in let (k, rk, e') = p.from j rj in (k, rk, e ∙ e');
  to = λ i r. let (j, rj, e) = p.to i r in let (k, rk, e') = q.to j rj in (k, rk, e ∙ e');
}

-- A part of the range may be rearranged.
pub Rearranged-widen :
    (first last a b : ℕ) (xs ys : List ℕ)
    → first ≤ a
    → b ≤ last
    → Rearranged a b xs ys
    → Rearranged first last xs ys
Rearranged-widen first last a b xs ys la lb p = record {
  same_length = p.same_length;
  same_count = p.same_count;
  outside = λ i out. p.outside i (λ r. out (omega (arith, r.0), omega (arith, r.1)));
  from = λ i r. widen_one xs ys p.from (λ c out. p.outside c out) i r;
  to = λ i r. widen_one ys xs p.to (λ c out. sym (p.outside c out)) i r;
}
  where
    widen_one :
        (us vs : List ℕ)
        → ((i : ℕ) → InRange a b i → (j : ℕ) × InRange a b j × (at vs i ≡ at us j))
        → ((i : ℕ) → (InRange a b i → ⊥) → at vs i ≡ at us i)
        → (i : ℕ) → InRange first last i
        → (j : ℕ) × InRange first last j × (at vs i ≡ at us j)
    widen_one us vs inside others i r = elim (dec_lt i a) [
      | yes lt ↦ (i, r, others i (λ q. omega (arith, lt, q.0)))
      | no ge ↦ elim (dec_lt b i) [
        | yes gt ↦ (i, r, others i (λ q. omega (arith, gt, q.1)))
        | no le ↦
            let (j, rj, e) = inside i (omega (arith, ge), omega (arith, le)) in
            (j, (omega (arith, rj.0), omega (arith, rj.1)), e)
      ]
    ]
