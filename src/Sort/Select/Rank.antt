-- ===== src/Sort/Select/Rank.antt =====
-- algorithm/qselect.h: the number at a place of the vector in order, by counting.
use native.Mathlib.Decide.{ℕ_discrete, dec_lt}
use cpplearn.Common.{
  ℕ, zero, suc, ◌+◌, ◌-◌, ◌≤◌, ◌<◌, ◌≡◌, refl, sym, ap, ◌∙◌, List, [], ◌∷◌, length, if◌then◌else◌,
  ltb, arith,
}
use cpplearn.Sort.{at}
use cpplearn.Sort.Arrays.{count}
use cpplearn.Sort.Select.Order.{Cut}

-- How many numbers are less than `v`.
count_below : ℕ → List ℕ → ℕ
count_below v [] = 0
count_below v (x ∷ xs) = (if ltb x v then 1 else 0) + count_below v xs

count_below-zero : (xs : List ℕ) → count_below 0 xs ≡ 0
unfolding count_below
count_below-zero [] = refl
count_below-zero (x ∷ xs) = grind (arith, count_below-zero xs)

count_below-suc : (v : ℕ) (xs : List ℕ) → count_below (suc v) xs ≡ count_below v xs + count v xs
unfolding count_below
count_below-suc v [] = refl
count_below-suc v (x ∷ xs) = ground (arith, count_below-suc v xs)

count_below-same :
    (v : ℕ) (xs ys : List ℕ)
    → ((a : ℕ) → count a xs ≡ count a ys)
    → count_below v xs ≡ count_below v ys
count_below-same zero xs ys same = count_below-zero xs ∙ sym (count_below-zero ys)
count_below-same (suc v) xs ys same =
    omega (arith, count_below-suc v xs, count_below-suc v ys, same v, count_below-same v xs ys same)

-- If all numbers from a place on are at least `v`, then no more than the place's are below.
count_below-few :
    (v q : ℕ) (xs : List ℕ) → ((j : ℕ) → q ≤ j → j < length xs → v ≤ at xs j) → count_below v xs ≤ q
unfolding count_below
count_below-few v q [] h = omega arith
count_below-few v zero (x ∷ xs) h =
    let here : v ≤ x = h 0 (omega arith) (omega arith) in
    let rest =
      count_below-few v 0 xs (λ j from upto. h (suc j) (omega arith) (omega (arith, upto))) in
    ground (arith, here, rest)
count_below-few v (suc q) (x ∷ xs) h =
    let rest =
      count_below-few v q xs
        (λ j from upto. h (suc j) (omega (arith, from)) (omega (arith, upto))) in
    grind (arith, rest)

count_below-many :
    (v q : ℕ) (xs : List ℕ) → q ≤ length xs → ((i : ℕ) → i < q → at xs i < v) → q ≤ count_below v xs
unfolding count_below
count_below-many v zero xs le h = omega arith
count_below-many v (suc q) [] le h = absurd (omega (arith, le))
count_below-many v (suc q) (x ∷ xs) le h =
    let here : x < v = h 0 (omega arith) in
    let rest =
      count_below-many v q xs (omega (arith, le)) (λ i lt. h (suc i) (omega (arith, lt))) in
    ground (arith, here, rest)

count_below_mono : (v w : ℕ) (xs : List ℕ) → v ≤ w → count_below v xs ≤ count_below w xs
unfolding count_below
count_below_mono v w [] le = omega arith
count_below_mono v w (x ∷ xs) le = grind (arith, count_below_mono v w xs le)

-- In the vector in order the value stands at the place.
pub Rank : ℕ → ℕ → List ℕ → Type 0
Rank q v xs = (count_below v xs ≤ q) × (q < count_below (suc v) xs)

pub Rank-unique :
    (q v w : ℕ) (xs ys : List ℕ)
    → ((a : ℕ) → count a xs ≡ count a ys)
    → Rank q v xs
    → Rank q w ys
    → v ≡ w
unfolding Rank
Rank-unique q v w xs ys same h k = elim (dec_lt v w) [
  | yes lt ↦ absurd (
      omega (
        arith,
        h,
        k,
        count_below_mono (suc v) w ys (omega (arith, lt)),
        count_below-same (suc v) xs ys same,
      ))
  | no ge ↦ elim (dec_lt w v) [
    | yes gt ↦ absurd (
        omega (
          arith,
          h,
          k,
          count_below_mono (suc w) v xs (omega (arith, gt)),
          count_below-same (suc w) xs ys same,
        ))
    | no le ↦ omega (arith, ge, le)
  ]
]

-- Between two cuts one behind the other stands the number with that rank.
pub Cut-Rank :
    (q : ℕ) (xs : List ℕ) → q < length xs → Cut q xs → Cut (suc q) xs → Rank q (at xs q) xs
unfolding Rank
Cut-Rank q xs within low high = (
  count_below-few (at xs q) q xs (λ j from upto. elim (ℕ_discrete q j) [
    | yes e ↦ omega (arith, ap (at xs) e)
    | no ne ↦ high q j (omega arith) (omega (arith, from, ne)) upto
  ]),
  count_below-many (suc (at xs q)) (suc q) xs (omega (arith, within)) (λ i le.
      elim (ℕ_discrete i q) [
        | yes e ↦ omega (arith, ap (at xs) e)
        | no ne ↦ omega (arith, low i q (omega (arith, le, ne)) (omega arith) within)
      ]),
)

-- The smaller numbers of two parts.
count_below-parts :
    (v : ℕ) (es ds xs : List ℕ)
    → ((a : ℕ) → count a es + count a ds ≡ count a xs)
    → count_below v es + count_below v ds ≡ count_below v xs
count_below-parts zero es ds xs h =
    omega (arith, count_below-zero es, count_below-zero ds, count_below-zero xs)
count_below-parts (suc v) es ds xs h = omega (
  arith,
  count_below-suc v es,
  count_below-suc v ds,
  count_below-suc v xs,
  h v,
  count_below-parts v es ds xs h,
)

count_below-length : (v : ℕ) (xs : List ℕ) → count_below v xs ≤ length xs
unfolding count_below
count_below-length v [] = omega arith
count_below-length v (x ∷ xs) = grind (arith, count_below-length v xs)

count_below-none : (v : ℕ) (xs : List ℕ) → ((a : ℕ) → 0 < count a xs → v ≤ a) → count_below v xs ≡ 0
unfolding count_below
count_below-none v [] h = refl
count_below-none v (x ∷ xs) h =
    let here : v ≤ x = h x (ground arith) in
    let rest = count_below-none v xs (λ a pos. h a (omega (arith, pos))) in
    ground (arith, here, rest)

count_below-all :
    (v : ℕ) (xs : List ℕ) → ((a : ℕ) → 0 < count a xs → a < v) → count_below v xs ≡ length xs
unfolding count_below
count_below-all v [] h = refl
count_below-all v (x ∷ xs) h =
    let here : x < v = h x (ground arith) in
    let rest = count_below-all v xs (λ a pos. h a (omega (arith, pos))) in
    ground (arith, here, rest)

-- The greatest of the smaller part of a vector.
pub parts-Rank :
    (v : ℕ) (es ds xs : List ℕ)
    → ((a : ℕ) → count a es + count a ds ≡ count a xs)
    → 0 < count v es
    → ((a : ℕ) → 0 < count a es → a ≤ v)
    → ((d : ℕ) → 0 < count d ds → v ≤ d)
    → Rank (length es - 1) v xs
unfolding Rank
parts-Rank v es ds xs h here greatest others =
    let lower = count_below-parts v es ds xs h in
    let upper = count_below-parts (suc v) es ds xs h in
    let all = count_below-all (suc v) es (λ a pos. omega (arith, greatest a pos)) in
    let none_there = count_below-none v ds others in
    let one = count_below-suc v es in
    (omega (arith, lower, all, none_there, one, here), omega (arith, upper, all, one, here))
