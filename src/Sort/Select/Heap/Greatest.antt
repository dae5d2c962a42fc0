-- ===== src/Sort/Select/Heap/Greatest.antt =====
-- A priority queue as a list, with its greatest element on top.
use native.Mathlib.Decide.{ℕ_discrete}
use cpplearn.Common.{
  ℕ, suc, ◌+◌, ◌≤◌, ◌<◌, ◌≡◌, refl, List, [], ◌∷◌, length, if◌then◌else◌, ◌==◌, ltb, arith,
}
use cpplearn.Sort.Arrays.{count}
use cpplearn.Sort.Select.Heap.{PriorityQueue}

abbrev pub greatest : List ℕ → ℕ
greatest [] = 0
greatest (x ∷ xs) = if ltb x (greatest xs) then greatest xs else x

-- One occurrence is taken out.
unfoldable pub remove_one : ℕ → List ℕ → List ℕ
remove_one v [] = []
remove_one v (x ∷ xs) = let later = remove_one v xs in if x == v then xs else x ∷ later

pub greatest-held : (xs : List ℕ) → 0 < length xs → 0 < count (greatest xs) xs
greatest-held [] h = absurd (omega (arith, h))
greatest-held (x ∷ []) h = ground arith
greatest-held (x ∷ (y ∷ xs)) h = grind (arith, greatest-held (y ∷ xs) (omega arith))

pub greatest_le : (a : ℕ) (xs : List ℕ) → 0 < count a xs → a ≤ greatest xs
greatest_le a [] h = absurd (omega (arith, h))
greatest_le a (x ∷ xs) h = elim (ℕ_discrete x a) [
  | yes e ↦ ground (arith, e)
  | no ne ↦ ground (arith, greatest_le a xs (ground (arith, h, ne)))
]

pub count-remove_one :
    (v a : ℕ) (xs : List ℕ)
    → 0 < count v xs
    → (if v == a then 1 else 0) + count a (remove_one v xs) ≡ count a xs
unfolding remove_one
count-remove_one v a [] h = absurd (omega (arith, h))
count-remove_one v a (x ∷ xs) h = elim (ℕ_discrete x v) [
  | yes e ↦ ground (arith, e)
  | no ne ↦ ground (arith, ne, count-remove_one v a xs (ground (arith, h, ne)))
]

pub length-remove_one :
    (v : ℕ) (xs : List ℕ) → 0 < count v xs → suc (length (remove_one v xs)) ≡ length xs
unfolding remove_one
length-remove_one v [] h = absurd (omega (arith, h))
length-remove_one v (x ∷ xs) h = elim (ℕ_discrete x v) [
  | yes e ↦ ground (arith, e)
  | no ne ↦ ground (arith, ne, length-remove_one v xs (ground (arith, h, ne)))
]

abbrev pub list_queue : PriorityQueue (List ℕ)
list_queue = record {
  empty = [];
  push = λ x xs. x ∷ xs;
  pop = λ xs. remove_one (greatest xs) xs;
  top = greatest;
  elements = λ xs. xs;
  empty_elements = refl;
  push_count = λ a x xs. refl;
  push_length = λ x xs. refl;
  pop_count = λ a xs h. count-remove_one (greatest xs) a xs (greatest-held xs h);
  pop_length = λ xs h. length-remove_one (greatest xs) xs (greatest-held xs h);
  top_greatest = greatest_le;
}
