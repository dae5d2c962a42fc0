-- ===== src/Sort.antt =====
-- algorithm/qsort.h: quick sort of a vector in place. The element type is that of the natural numbers.
pub mod Arrays
pub mod Partition
pub mod Quick
pub mod Select
use cpplearn.Common.{
  ℕ, zero, suc, ◌+◌, ◌-◌, ◌*◌, ◌/◌, ◌&&◌, Option, none, some, List, [], ◌∷◌, length, get_or,
  if◌then◌else◌, ltb, leb, set,
}

-- `nums[i]`; every index that the code reads is in range, so that the default is not met.
abbrev pub at : List ℕ → ℕ → ℕ
at nums i = get_or nums i 0

-- `std::swap(nums[i], nums[j])`
unfoldable pub swap : List ℕ → ℕ → ℕ → List ℕ
swap nums i j = set (set nums i (at nums j)) j (at nums i)

-- The position of the pivot.
unfoldable pub median_position : List ℕ → ℕ → ℕ → ℕ
median_position nums begin end =
    let mid = (begin + end) / 2 in
    if leb (at nums begin) (at nums mid) && leb (at nums mid) (at nums end)
    then mid
    else if leb (at nums begin) (at nums end) && leb (at nums end) (at nums mid)
    then end
    else begin

unfoldable pub median_of_three_pivot : List ℕ → ℕ → ℕ → List ℕ
unfolding median_position
median_of_three_pivot nums begin end = swap nums (median_position nums begin end) begin

-- The loop `while (cur <= end)`, by the number of rounds left; the vector and `pos` afterwards.
unfoldable pub partition_loop : (rounds cur pivot : ℕ) → List ℕ → ℕ → List ℕ × ℕ
partition_loop zero cur pivot nums pos = (nums, pos)
partition_loop (suc rounds) cur pivot nums pos =
    let smaller = partition_loop rounds (cur + 1) pivot (swap nums (pos + 1) cur) (pos + 1) in
    let others = partition_loop rounds (cur + 1) pivot nums pos in
    if ltb (at nums cur) pivot then smaller else others

-- Behind the choice of the pivot, which is at `begin`.
unfoldable pub partition_from : List ℕ → ℕ → ℕ → List ℕ × ℕ
partition_from nums begin end =
    let (nums', pos) = partition_loop (end + 1 - begin) begin (at nums begin) nums begin in
    (swap nums' pos begin, pos)

unfoldable pub partition : List ℕ → ℕ → ℕ → List ℕ × ℕ
unfolding median_of_three_pivot partition_from
partition nums begin end = partition_from (median_of_three_pivot nums begin end) begin end

abbrev pub and_then : Option (List ℕ) → (List ℕ → Option (List ℕ)) → Option (List ℕ)
and_then none f = none
and_then (some nums) f = f nums

-- `none` is a call whose fuel is used up.
unfoldable pub qsort_range : ℕ → List ℕ → ℕ → ℕ → Option (List ℕ)
unfolding partition
qsort_range zero nums begin end = none
qsort_range (suc fuel) nums begin end =
    let parts = partition nums begin end in
    let sorted =
      and_then (qsort_range fuel parts.0 begin parts.1)
        (λ left. qsort_range fuel left (parts.1 + 1) end) in
    if ltb begin end then sorted else some nums

-- For an empty vector `nums.size() - 1` wraps, and the first read is out of range: `none`.
unfoldable pub qsort : List ℕ → Option (List ℕ)
unfolding qsort_range
qsort [] = none
qsort (x ∷ nums) = qsort_range (2 * length (x ∷ nums)) (x ∷ nums) 0 (length nums)
