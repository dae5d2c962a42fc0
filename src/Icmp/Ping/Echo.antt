-- ===== src/Icmp/Ping/Echo.antt =====
-- unp/unpv13e/ping: a reply to what is sent is what proc_v4 accepts, and the difference of two times.
use cpplearn.Common.{
  ℕ, zero, suc, ◌+◌, ◌-◌, ◌*◌, ◌/◌, ◌%◌, ◌^◌, ◌≤◌, ◌<◌, ◌≡◌, inl, inr, refl, sym, ap, ◌∙◌, Bool,
  true, false, not, ◌||◌, some, [], ◌∷◌, ◌++◌, Bytes, length, take, drop, get_elem?, ◌==◌, ltb, leb,
  arith, Bool-cases, length-append, length-take, take-append_long, take-append_short,
  drop-append_long, take_all,
}
use cpplearn.Icmp.{
  byte_at, word_at, header_length, ipproto_icmp, get_elem?-append, get_elem?-append_front,
  word_at-append,
}
use cpplearn.Icmp.Trace.Packets.{IsHeader}
use cpplearn.Icmp.Ping.{
  word_bytes, long_of, timeval_of, minus64, is_negative64, pattern, echo_data, echo_packet, send_v4,
  reply, bytes_at, sizeof_timeval, proc_reply, proc_v4, Timeval, tv_sub,
}

-- What a host sends back: the packet with the type of a reply and a checksum of its own, behind an
-- IP header.
abbrev pub echoed : Bytes → (lo hi : ℕ) → Bytes → Bytes
echoed outer lo hi (type ∷ code ∷ c ∷ c' ∷ rest) = outer ++ (0 ∷ code ∷ lo ∷ hi ∷ rest)
echoed outer lo hi _ = outer

length-pattern : (n : ℕ) → length (pattern n) ≡ n
length-pattern zero = refl
length-pattern (suc n) = omega (arith, length-pattern n)

-- The time at the start of the data, and what stands behind it.
echo_data_time :
    (tv : Bytes) (datalen : ℕ)
    → length tv ≡ sizeof_timeval
    → sizeof_timeval ≤ datalen
    → (take sizeof_timeval (echo_data tv datalen) ≡ tv) × (length (echo_data tv datalen) ≡ datalen)
unfolding echo_data
echo_data_time tv datalen time room = (
  ap (take sizeof_timeval)
        (take-append_long datalen tv (pattern (datalen - length tv)) (omega arith))
      ∙ take-append_short sizeof_timeval tv _ (omega (arith, time))
      ∙ take_all sizeof_timeval tv (omega (arith, time)),
  length-take datalen (tv ++ pattern (datalen - length tv))
      ∙ omega (
        arith,
        length-append tv (pattern (datalen - length tv)),
        length-pattern (datalen - length tv),
        time,
        room,
      ),
)

bytes_at-append :
    (xs ys : Bytes) (i n : ℕ)
    → i + n ≤ length ys
    → bytes_at (xs ++ ys) (length xs + i) n ≡ some (take n (drop i ys))
bytes_at-append xs ys i n h =
    let within : leb (length xs + i + n) (length (xs ++ ys)) ≡ true =
      ground (arith, length-append xs ys) in
    let rest : length xs + i - length xs ≡ i = omega arith in
    rw within (
      ap (λ zs. some (take n zs))
        (drop-append_long (length xs + i) xs ys (omega arith) ∙ ap (λ k. drop k ys) rest))

module _ (pid hlen1 seq ttl : ℕ) (tvrecv : Timeval) (buf tv : Bytes) where
  proc_reply-found :
      word_at buf (hlen1 + 4) ≡ some pid
      → 16 ≤ length buf - hlen1
      → bytes_at buf (hlen1 + 8) sizeof_timeval ≡ some tv
      → word_at buf (hlen1 + 6) ≡ some seq
      → byte_at buf 8 ≡ some ttl
      → proc_reply pid tvrecv buf hlen1
        ≡ some (reply (length buf - hlen1) seq ttl (tv_sub tvrecv (timeval_of tv)))
  unfolding proc_reply
  proc_reply-found a long b c d =
      let mine : (not (pid == pid) || ltb (length buf - hlen1) 16) ≡ false = ground (arith, long) in
      rw (a, mine, b, c, d) refl

  proc_v4-found :
      (first : ℕ) (verbose : Bool)
      → header_length first ≡ hlen1
      → byte_at buf 0 ≡ some first
      → byte_at buf 9 ≡ some ipproto_icmp
      → hlen1 + 8 ≤ length buf
      → byte_at buf hlen1 ≡ some 0
      → proc_v4 pid verbose tvrecv buf ≡ proc_reply pid tvrecv buf hlen1
  unfolding proc_v4
  proc_v4-found first verbose same a b long c =
      let enough : (not (ipproto_icmp == ipproto_icmp) || ltb (length buf) (hlen1 + 8)) ≡ false =
        ground (arith, long) in
      rw (a, b, same, enough, c) refl

own_id :
    (lo hi pid nsent : ℕ) (stuff : Bytes)
    → pid < 2 ^ 16
    → word_at (0 ∷ 0 ∷ lo ∷ hi ∷ (word_bytes pid ++ (word_bytes nsent ++ stuff))) 4 ≡ some pid
unfolding word_at
own_id lo hi pid nsent stuff small = ap some (omega (arith, small))

own_seq :
    (lo hi pid nsent : ℕ) (stuff : Bytes)
    → word_at (0 ∷ 0 ∷ lo ∷ hi ∷ (word_bytes pid ++ (word_bytes nsent ++ stuff))) 6
      ≡ some (nsent % 2 ^ 16)
unfolding word_at
own_seq lo hi pid nsent stuff = ap some (omega arith)

-- A time in microseconds.
abbrev pub micros : Timeval → ℕ
micros t = 1000000 * t.tv_sec + t.tv_usec

-- A time of gettimeofday, and its bytes in memory.
pub record IsTime (t : Timeval) : Type 0 where
  pub positive : t.tv_sec < 2 ^ 63
  pub within : t.tv_usec < 1000000

abbrev pub long_bytes : (n : ℕ) → ℕ → Bytes
long_bytes zero a = []
long_bytes (suc n) a = a % 256 ∷ long_bytes n (a / 256)

abbrev pub timeval_bytes : Timeval → Bytes
timeval_bytes t = long_bytes 8 t.tv_sec ++ long_bytes 8 t.tv_usec

abbrev bound : ℕ → ℕ
bound zero = 1
bound (suc n) = 256 * bound n

long_of-long_bytes : (n a : ℕ) → a < bound n → long_of (long_bytes n a) ≡ a
unfolding long_of
long_of-long_bytes zero a h = omega arith
long_of-long_bytes (suc n) a h = omega (arith, long_of-long_bytes n (a / 256) (omega (arith, h)))

abbrev seconds_and : ℕ → ℕ → Timeval
seconds_and sec usec = record { tv_sec = sec; tv_usec = usec }

timeval_of-timeval_bytes : (t : Timeval) → IsTime t → timeval_of (timeval_bytes t) ≡ t
unfolding timeval_of
timeval_of-timeval_bytes t h =
    let sec : long_of (long_bytes 8 t.tv_sec) ≡ t.tv_sec =
      long_of-long_bytes 8 t.tv_sec (omega (arith, h.positive)) in
    let usec : long_of (long_bytes 8 t.tv_usec) ≡ t.tv_usec =
      long_of-long_bytes 8 t.tv_usec (omega (arith, h.within)) in
    ap (λ a. seconds_and a (long_of (long_bytes 8 t.tv_usec))) sec ∙ ap (seconds_and t.tv_sec) usec

-- The difference of a time and an earlier one, in microseconds, is right, and it has less than a
-- second of them.
tv_sub-total :
    (out earlier : Timeval)
    → IsTime out
    → IsTime earlier
    → micros earlier ≤ micros out
    → (micros (tv_sub out earlier) + micros earlier ≡ micros out)
      × ((tv_sub out earlier).tv_usec < 1000000)
unfolding tv_sub
tv_sub-total out earlier h k le =
    elim (Bool-cases (is_negative64 (minus64 out.tv_usec earlier.tv_usec))) [
      | inl e ↦
          let less : out.tv_usec < earlier.tv_usec = ground (arith, e, h.within, k.within) in
          rw e (
            omega (arith, less, h.positive, h.within, k.positive, k.within, le),
            omega (arith, less, h.within, k.within),
          )
      | inr e ↦
          let more : earlier.tv_usec ≤ out.tv_usec = ground (arith, e, h.within, k.within) in
          rw e (
            omega (arith, more, h.positive, h.within, k.positive, k.within, le),
            omega (arith, more, h.within, k.within),
          )
    ]

-- The reply to a packet of send_v4 with room for the time: proc_v4 prints its length, the number that the
-- packet had, the TTL of the reply, and the time from the sending of the packet to `tvrecv`, if the packet
-- was not sent later than that.
pub proc_v4-send_v4 :
    (pid nsent datalen ttl lo hi : ℕ) (verbose : Bool) (tvsend tvrecv : Timeval) (outer : Bytes)
    → pid < 2 ^ 16
    → sizeof_timeval ≤ datalen
    → IsTime tvsend
    → IsTime tvrecv
    → micros tvsend ≤ micros tvrecv
    → IsHeader outer
    → get_elem? outer 9 ≡ some ipproto_icmp
    → get_elem? outer 8 ≡ some ttl
    → (rtt : Timeval) × (proc_v4 pid verbose tvrecv
          (echoed outer lo hi (send_v4 pid nsent datalen (timeval_bytes tvsend)).0)
        ≡ some (reply (8 + datalen) (nsent % 2 ^ 16) ttl rtt))
      × (micros rtt + micros tvsend ≡ micros tvrecv)
      × (rtt.tv_usec < 1000000)
unfolding send_v4 echo_packet
proc_v4-send_v4 pid nsent datalen ttl lo hi verbose tvsend tvrecv outer small room s r later o icmp
      at_ttl =
    let tv : Bytes = timeval_bytes tvsend in
    let stuff : Bytes = echo_data tv datalen in
    let t : Bytes = 0 ∷ 0 ∷ lo ∷ hi ∷ (word_bytes pid ++ (word_bytes nsent ++ stuff)) in
    let (stamp, size) = echo_data_time tv datalen refl room in
    let long : length (outer ++ t) ≡ length outer + (8 + datalen) =
      length-append outer t ∙ omega (arith, size) in
    let rest : length (outer ++ t) - length outer ≡ 8 + datalen = omega (arith, long) in
    let here : length outer ≡ length outer + 0 = omega arith in
    (
      tv_sub tvrecv tvsend,
      proc_v4-found pid (length outer) (nsent % 2 ^ 16) ttl tvrecv (outer ++ t) tv o.first verbose
            (sym o.long) (get_elem?-append_front outer t 0 o.first o.at_first)
            (get_elem?-append_front outer t 9 ipproto_icmp icmp) (omega (arith, long))
            (ap (byte_at (outer ++ t)) here ∙ get_elem?-append outer t 0)
          ∙ proc_reply-found pid (length outer) (nsent % 2 ^ 16) ttl tvrecv (outer ++ t) tv
              (word_at-append outer t 4 ∙ own_id lo hi pid nsent stuff small)
              (omega (arith, long, room))
              (bytes_at-append outer t 8 sizeof_timeval (omega (arith, size, room)) ∙ ap some stamp)
              (word_at-append outer t 6 ∙ own_seq lo hi pid nsent stuff)
              (get_elem?-append_front outer t 8 ttl at_ttl)
          ∙ ap (λ k. some (reply k (nsent % 2 ^ 16) ttl (tv_sub tvrecv (timeval_of tv)))) rest
          ∙ ap (λ (u : Timeval). some (reply (8 + datalen) (nsent % 2 ^ 16) ttl (tv_sub tvrecv u)))
              (timeval_of-timeval_bytes tvsend s),
      (tv_sub-total tvrecv tvsend r s later).0,
      (tv_sub-total tvrecv tvsend r s later).1,
    )
