-- ===== src/Sort/Select.antt =====
-- algorithm/qselect.h: randomized_select and heap_select, for natural numbers.
pub mod Order
pub mod Rank
pub mod Kth
pub mod Heap
use cpplearn.Common.{
  ℕ, zero, suc, ◌+◌, ◌-◌, ◌%◌, ◌^◌, ◌||◌, Option, none, some, List, length, if◌then◌else◌, ◌==◌,
  ltb, leb,
}
use cpplearn.Sort.{at, swap, partition_from}

-- The number is what rand returns.
unfoldable pub random_pivot : List ℕ → ℕ → ℕ → ℕ → List ℕ
random_pivot nums begin end r =
    if ltb begin end then swap nums (r % (end - begin + 1) + begin) begin else nums

-- Behind the choice of the pivot the code is that of partition in qsort.h.
unfoldable pub randomized_partition : List ℕ → ℕ → ℕ → ℕ → List ℕ × ℕ
unfolding random_pivot partition_from
randomized_partition nums begin end r = partition_from (random_pivot nums begin end r) begin end

-- The loop: the number selected, and the vector. `chosen` is what rand returns, by the fuel left;
-- `none` is a loop whose fuel is used up.
unfoldable pub select_loop :
    (ℕ → ℕ) → (fuel : ℕ) → List ℕ → (begin end k pos : ℕ) → Option (ℕ × List ℕ)
unfolding randomized_partition
select_loop chosen zero nums begin end k pos = none
select_loop chosen (suc fuel) nums begin end k pos =
    let parts = randomized_partition nums begin end (chosen fuel) in
    let ordinal = parts.1 - begin + 1 in
    let lower = select_loop chosen fuel parts.0 begin ((parts.1 + 2 ^ 64 - 1) % 2 ^ 64) k parts.1 in
    let upper = select_loop chosen fuel parts.0 (parts.1 + 1) end (k - ordinal) parts.1 in
    if leb begin end
    then (if k == ordinal
        then some (at parts.0 parts.1, parts.0)
        else if ltb k ordinal
        then lower
        else upper)
    else some (at nums pos, nums)

-- `k = lens` where `k > lens`.
abbrev pub at_most : ℕ → ℕ → ℕ
at_most lens k = if ltb lens k then lens else k

unfoldable pub randomized_select : (ℕ → ℕ) → List ℕ → ℕ → Option (ℕ × List ℕ)
unfolding select_loop
randomized_select chosen nums k =
    if (length nums == 0) || (k == 0)
    then some (0, nums)
    else select_loop chosen (length nums) nums 0 (length nums - 1) (at_most (length nums) k) 0
