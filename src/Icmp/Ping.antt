-- ===== src/Icmp/Ping.antt =====
-- unp/unpv13e/ping: send_v4.c, proc_v4.c and tv_sub.c.
pub mod Checksum
pub mod Echo
use cpplearn.Common.{
  ℕ, zero, suc, ◌+◌, ◌-◌, ◌*◌, ◌/◌, ◌%◌, ◌^◌, Bool, not, ◌||◌, Option, none, some, [], ◌∷◌, ◌++◌,
  Bytes, length, take, drop, if◌then◌else◌, ◌==◌, ltb, leb,
}
use cpplearn.Icmp.{◌>>=◌, byte_at, word_at, header_length, icmp_echoreply, ipproto_icmp}
use cpplearn.Cksum.{in_cksum}

abbrev pub icmp_echo : ℕ
icmp_echo = 8

-- Two bytes of a `u_short`, the low one first.
abbrev pub word_bytes : ℕ → Bytes
word_bytes w = w % 256 ∷ w / 256 % 256 ∷ []

abbrev pub pattern : ℕ → Bytes
pattern zero = []
pattern (suc n) = 0xa5 ∷ pattern n

-- `icmp_data`: the time, `sizeof(struct timeval)` bytes, over a pattern; `datalen` bytes are sent.
unfoldable pub echo_data : Bytes → ℕ → Bytes
echo_data tv datalen = take datalen (tv ++ pattern (datalen - length tv))

-- The ICMP header with its checksum, and the data.
unfoldable pub echo_packet : ℕ → ℕ → ℕ → Bytes → Bytes
echo_packet cksum pid nsent icmp_data =
    icmp_echo ∷ 0 ∷ (word_bytes cksum ++ (word_bytes pid ++ (word_bytes nsent ++ icmp_data)))

-- The packet that is sent, and `nsent` afterwards.
unfoldable pub send_v4 : ℕ → ℕ → ℕ → Bytes → Bytes × ℕ
send_v4 pid nsent datalen tv =
    let icmp_data = echo_data tv datalen in
    let icmp_cksum = in_cksum (echo_packet 0 pid nsent icmp_data) in
    (echo_packet icmp_cksum pid nsent icmp_data, nsent + 1)

-- struct timeval; each part is a `long`, in two's complement of 64 bits.
pub record Timeval : Type 0 where
  pub tv_sec : ℕ
  pub tv_usec : ℕ

-- The number in the bytes of a `long`, the low one first.
unfoldable pub long_of : Bytes → ℕ
long_of [] = 0
long_of (b ∷ rest) = b + 256 * long_of rest

-- The first bytes of a message as a struct timeval.
unfoldable pub timeval_of : Bytes → Timeval
timeval_of bytes = record { tv_sec = long_of (take 8 bytes); tv_usec = long_of (drop 8 bytes) }

abbrev pub minus64 : ℕ → ℕ → ℕ
minus64 a b = (a + 2 ^ 64 - b) % 2 ^ 64

abbrev pub is_negative64 : ℕ → Bool
is_negative64 a = leb (2 ^ 63) a

-- `out -= in`
unfoldable pub tv_sub : Timeval → Timeval → Timeval
tv_sub out in_tv =
    let usec = minus64 out.tv_usec in_tv.tv_usec in
    if is_negative64 usec
    then record {
      tv_sec = minus64 (minus64 out.tv_sec 1) in_tv.tv_sec;
      tv_usec = (usec + 1000000) % 2 ^ 64;
    }
    else record { tv_sec = minus64 out.tv_sec in_tv.tv_sec; tv_usec = usec }

-- What proc_v4 does: nothing, or it prints a reply, where the time is printed as `rtt`, its tv_sec *
-- 1000.0 + tv_usec / 1000.0; or another message.
pub data Printed : Type 0 where
  nothing : Printed
  reply : (icmplen icmp_seq ttl : ℕ) → Timeval → Printed
  message : (icmplen type code : ℕ) → Printed

-- A read of `n` bytes.
abbrev pub bytes_at : Bytes → ℕ → ℕ → Option Bytes
bytes_at buf i n = if leb (i + n) (length buf) then some (take n (drop i buf)) else none

abbrev pub sizeof_timeval : ℕ
sizeof_timeval = 16

-- An echo reply, whose ICMP header is at `hlen1`.
unfoldable pub proc_reply : ℕ → Timeval → Bytes → ℕ → Option Printed
proc_reply pid tvrecv buf hlen1 = do
  icmp_id ← word_at buf (hlen1 + 4)
  if not (icmp_id == pid) || ltb (length buf - hlen1) 16 then some nothing else do
    tvsend ← bytes_at buf (hlen1 + 8) sizeof_timeval
    icmp_seq ← word_at buf (hlen1 + 6)
    ttl ← byte_at buf 8
    some (reply (length buf - hlen1) icmp_seq ttl (tv_sub tvrecv (timeval_of tvsend)))

unfoldable pub proc_v4 : ℕ → Bool → Timeval → Bytes → Option Printed
proc_v4 pid verbose tvrecv buf = do
  first ← byte_at buf 0
  let hlen1 = header_length first
  protocol ← byte_at buf 9
  if not (protocol == ipproto_icmp) || ltb (length buf) (hlen1 + 8) then some nothing else do
    type ← byte_at buf hlen1
    if type == icmp_echoreply
        then proc_reply pid tvrecv buf hlen1
        else if verbose
        then (byte_at buf (hlen1 + 1) >>= λ code. some (message (length buf - hlen1) type code))
        else some nothing
