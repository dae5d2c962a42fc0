-- ===== src/Icmp/Ping/Checksum.antt =====
-- unp/unpv13e/ping/send_v4.c: the checksum of what is sent.
use cpplearn.Common.{
  ℕ, zero, suc, ◌+◌, ◌-◌, ◌*◌, ◌/◌, ◌%◌, ◌^◌, ◌≤◌, ◌<◌, ◌≡◌, sym, ◌∙◌, List, [], ◌∷◌, ◌++◌, Bytes,
  length, take, All, arith, length-take,
}
use cpplearn.Cksum.{in_cksum, in_cksum_check, in_cksum-eq_of_sum, IsByte, word_sum, word_sum_check}
use cpplearn.Icmp.Ping.{pattern, echo_data, echo_packet, send_v4}

in_cksum-bound : (bytes : Bytes) → in_cksum bytes < 2 ^ 16
unfolding in_cksum
in_cksum-bound bytes = omega arith

-- The checksum stands behind the first word, and not in front of it.
word_sum-moved :
    (c pid nsent : ℕ) (icmp_data : Bytes)
    → c < 2 ^ 16
    → word_sum (c % 256 ∷ c / 256 ∷ echo_packet 0 pid nsent icmp_data)
      ≡ word_sum (echo_packet c pid nsent icmp_data)
unfolding echo_packet
word_sum-moved c pid nsent icmp_data h = omega (arith, h)

echo_packet-IsByte :
    (pid nsent : ℕ) (icmp_data : Bytes)
    → All IsByte icmp_data
    → All IsByte (echo_packet 0 pid nsent icmp_data)
unfolding echo_packet
echo_packet-IsByte pid nsent icmp_data h = (
  omega arith,
  (
    omega arith,
    (omega arith, (omega arith, (omega arith, (omega arith, (omega arith, (omega arith, h)))))),
  ),
)

All-take {ℓ κ} : {A : Type ℓ} (P : A → Type κ) (n : ℕ) (xs : List A) → All P xs → All P (take n xs)
All-take P zero xs h = tt
All-take P (suc n) [] h = tt
All-take P (suc n) (x ∷ xs) h = (h.0, All-take P n xs h.1)

pattern-IsByte : (n : ℕ) → All IsByte (pattern n)
pattern-IsByte zero = tt
pattern-IsByte (suc n) = (omega arith, pattern-IsByte n)

timed-IsByte : (tv : Bytes) (n : ℕ) → All IsByte tv → All IsByte (tv ++ pattern n)
timed-IsByte [] n h = pattern-IsByte n
timed-IsByte (b ∷ tv) n h = (h.0, timed-IsByte tv n h.1)

echo_data-IsByte : (tv : Bytes) (datalen : ℕ) → All IsByte tv → All IsByte (echo_data tv datalen)
unfolding echo_data
echo_data-IsByte tv datalen h =
    All-take IsByte datalen (tv ++ pattern (datalen - length tv)) (timed-IsByte tv _ h)

length-echo_data : (tv : Bytes) (datalen : ℕ) → length (echo_data tv datalen) ≤ datalen
unfolding echo_data
length-echo_data tv datalen =
    omega (arith, length-take datalen (tv ++ pattern (datalen - length tv)))

length-echo_packet :
    (c pid nsent : ℕ) (icmp_data : Bytes)
    → length (echo_packet c pid nsent icmp_data) ≡ 8 + length icmp_data
unfolding echo_packet
length-echo_packet c pid nsent icmp_data = omega arith

checked :
    (pid nsent : ℕ) (icmp_data : Bytes)
    → All IsByte icmp_data
    → length icmp_data ≤ 65527
    → in_cksum (echo_packet (in_cksum (echo_packet 0 pid nsent icmp_data)) pid nsent icmp_data) ≡ 0
checked pid nsent icmp_data h small =
    let bytes : Bytes = echo_packet 0 pid nsent icmp_data in
    let c : ℕ = in_cksum bytes in
    let all = echo_packet-IsByte pid nsent icmp_data h in
    let fits : c < 2 ^ 16 = in_cksum-bound bytes in
    let short : length bytes ≤ 65535 =
      omega (arith, length-echo_packet 0 pid nsent icmp_data, small) in
    sym (
      in_cksum-eq_of_sum (c % 256 ∷ c / 256 ∷ bytes) (echo_packet c pid nsent icmp_data)
        (omega arith, (omega (arith, fits), all)) (omega (arith, short))
        (word_sum-moved c pid nsent icmp_data fits))
    ∙ in_cksum_check bytes all short

summed :
    (pid nsent : ℕ) (icmp_data : Bytes)
    → All IsByte icmp_data
    → length icmp_data ≤ 65527
    → (k : ℕ) × (word_sum
          (echo_packet (in_cksum (echo_packet 0 pid nsent icmp_data)) pid nsent icmp_data)
        ≡ 65535 * suc k)
summed pid nsent icmp_data h small =
    let bytes : Bytes = echo_packet 0 pid nsent icmp_data in
    let short : length bytes ≤ 65535 =
      omega (arith, length-echo_packet 0 pid nsent icmp_data, small) in
    (
      _,
      sym (word_sum-moved (in_cksum bytes) pid nsent icmp_data (in_cksum-bound bytes))
          ∙ word_sum_check bytes (echo_packet-IsByte pid nsent icmp_data h) short,
    )

-- For data of bytes, at most 65527 of them, the true sum of the words of the packet that send_v4 makes,
-- an odd byte at the end included, is a multiple of 65535 other than 0, as RFC 1071 asks for; and a
-- receiver that calls in_cksum on the packet gets 0.
pub send_v4_checked :
    (pid nsent datalen : ℕ) (tv : Bytes)
    → All IsByte tv
    → datalen ≤ 65527
    → ((k : ℕ) × (word_sum (send_v4 pid nsent datalen tv).0 ≡ 65535 * suc k))
      × (in_cksum (send_v4 pid nsent datalen tv).0 ≡ 0)
unfolding send_v4
send_v4_checked pid nsent datalen tv h small =
    let bytes = echo_data-IsByte tv datalen h in
    let short : length (echo_data tv datalen) ≤ 65527 =
      omega (arith, length-echo_data tv datalen, small) in
    (
      summed pid nsent (echo_data tv datalen) bytes short,
      checked pid nsent (echo_data tv datalen) bytes short,
    )
