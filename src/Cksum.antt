-- ===== src/Cksum.antt =====
-- unp/unpv13e/libfree/in_cksum.c: the Internet checksum of a packet. The packet is a list of bytes,
-- which a little-endian machine reads as words of sixteen bits.
use native.Mathlib.Nat.{zero-add}
use cpplearn.Common.{
  ℕ, suc, ◌+◌, ◌-◌, ◌*◌, ◌/◌, ◌%◌, ◌^◌, ◌≤◌, ◌<◌, ◌≡◌, sym, ap, ◌∙◌, [], ◌∷◌, Bytes, length, All,
  arith,
}

-- The loop, with a sum of 32 bits, and the odd byte at the end.
sum_words : ℕ → Bytes → ℕ
sum_words sum [] = sum
sum_words sum (b ∷ []) = (sum + b) % 2 ^ 32
sum_words sum (b ∷ b' ∷ rest) = sum_words ((sum + (b + 256 * b')) % 2 ^ 32) rest

-- `sum = (sum >> 16) + (sum & 0xffff); sum += (sum >> 16);`, cut to sixteen bits by `answer`.
fold_carries : ℕ → ℕ
fold_carries sum = let once = sum / 2 ^ 16 + sum % 2 ^ 16 in (once + once / 2 ^ 16) % 2 ^ 16

-- `answer = ~sum`
unfoldable pub in_cksum : Bytes → ℕ
unfolding sum_words fold_carries
in_cksum bytes = 2 ^ 16 - 1 - fold_carries (sum_words 0 bytes)

abbrev pub IsByte : ℕ → Type 0
IsByte b = b < 256

-- The true sum of the words.
abbrev pub word_sum : Bytes → ℕ
word_sum [] = 0
word_sum (b ∷ []) = b
word_sum (b ∷ b' ∷ rest) = b + 256 * b' + word_sum rest

sum_words-word_sum :
    (sum : ℕ) (bytes : Bytes)
    → sum + word_sum bytes < 2 ^ 32
    → sum_words sum bytes ≡ sum + word_sum bytes
unfolding sum_words
sum_words-word_sum sum [] h = omega arith
sum_words-word_sum sum (b ∷ []) h = omega arith
sum_words-word_sum sum (b ∷ b' ∷ rest) h =
    omega (arith, sum_words-word_sum ((sum + (b + 256 * b')) % 2 ^ 32) rest (omega arith))

word_sum-le : (bytes : Bytes) → All IsByte bytes → 2 * word_sum bytes ≤ 65535 * length bytes + 65535
word_sum-le [] h = omega arith
word_sum-le (b ∷ []) h = omega (arith, h.0)
word_sum-le (b ∷ b' ∷ rest) h = omega (arith, h.0, h.1.0, word_sum-le rest h.1.1)

-- The carries are added back: the sum is kept but for multiples of 65535.
abbrev dropped : ℕ → ℕ
dropped sum = sum / 2 ^ 16 + (sum / 2 ^ 16 + sum % 2 ^ 16) / 2 ^ 16

module _ (sum : ℕ) (fits : sum < 2 ^ 32) where
  fold_carries-eq : fold_carries sum + 65535 * dropped sum ≡ sum
  unfolding fold_carries
  fold_carries-eq = omega arith

  fold_carries-lt : fold_carries sum < 2 ^ 16
  unfolding fold_carries
  fold_carries-lt = omega arith

  -- Only a sum of 0 is folded to 0.
  fold_carries-pos : 0 < sum → 0 < fold_carries sum
  unfolding fold_carries
  fold_carries-pos pos = omega arith

fold_carries_ones : (sum k : ℕ) → sum < 2 ^ 32 → sum ≡ 65535 * suc k → fold_carries sum ≡ 65535
fold_carries_ones sum k fits e = omega (
  arith,
  fold_carries-eq sum fits,
  fold_carries-lt sum fits,
  fold_carries-pos sum fits (omega arith),
)

in_cksum-eq :
    (bytes : Bytes)
    → word_sum bytes < 2 ^ 32
    → in_cksum bytes ≡ 65535 - fold_carries (word_sum bytes)
unfolding in_cksum
in_cksum-eq bytes h =
    ap (λ sum. 65535 - fold_carries sum)
      (sum_words-word_sum 0 bytes (omega arith) ∙ zero-add (word_sum bytes))

in_cksum-cons :
    (c : ℕ) (bytes : Bytes)
    → c < 2 ^ 16
    → word_sum bytes < 2 ^ 31
    → c ≡ 65535 - fold_carries (word_sum bytes)
    → in_cksum (c % 256 ∷ c / 256 ∷ bytes) ≡ 0
in_cksum-cons c bytes small fits e =
    let total = word_sum (c % 256 ∷ c / 256 ∷ bytes) in
    let s = word_sum bytes in
    let ones : fold_carries total ≡ 65535 =
      fold_carries_ones total (dropped s) (omega arith)
        (omega (arith, fold_carries-eq s (omega arith), fold_carries-lt s (omega arith))) in
    in_cksum-eq (c % 256 ∷ c / 256 ∷ bytes) (omega arith) ∙ ap (λ n. 65535 - n) ones

-- The checksum of a packet of at most 65535 bytes, put in front of it as a word, low byte first, is
-- what a receiver checks: the checksum of the whole is 0.
pub in_cksum_check :
    (bytes : Bytes)
    → All IsByte bytes
    → length bytes ≤ 65535
    → in_cksum (in_cksum bytes % 256 ∷ in_cksum bytes / 256 ∷ bytes) ≡ 0
in_cksum_check bytes h small =
    let bound : word_sum bytes < 2 ^ 31 = omega (arith, word_sum-le bytes h) in
    let e = in_cksum-eq bytes (omega arith) in
    in_cksum-cons (in_cksum bytes) bytes (omega (arith, e)) bound e

-- The checksum put in front of a packet makes the true sum of all words a multiple of 65535 other than 0,
-- which is what RFC 1071 asks for.
pub word_sum_check :
    (bytes : Bytes)
    → All IsByte bytes
    → length bytes ≤ 65535
    → word_sum (in_cksum bytes % 256 ∷ in_cksum bytes / 256 ∷ bytes)
      ≡ 65535 * suc (dropped (word_sum bytes))
word_sum_check bytes h small =
    let bound : word_sum bytes < 2 ^ 31 = omega (arith, word_sum-le bytes h) in
    let s = word_sum bytes in
    omega (
      arith,
      in_cksum-eq bytes (omega arith),
      fold_carries-eq s (omega arith),
      fold_carries-lt s (omega arith),
    )

-- Only the sum of the words matters.
pub in_cksum-eq_of_sum :
    (xs ys : Bytes)
    → All IsByte xs
    → length xs ≤ 65537
    → word_sum xs ≡ word_sum ys
    → in_cksum xs ≡ in_cksum ys
in_cksum-eq_of_sum xs ys h small same =
    let bound : word_sum xs < 2 ^ 32 = omega (arith, word_sum-le xs h) in
    in_cksum-eq xs bound
    ∙ ap (λ n. 65535 - fold_carries n) same
    ∙ sym (in_cksum-eq ys (omega (arith, bound, same)))
