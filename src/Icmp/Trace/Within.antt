-- ===== src/Icmp/Trace/Within.antt =====
-- unp/unpv13e/traceroute/recv_v4.c: every read lies within the bytes received.
use cpplearn.Common.{
  if_keeps, ℕ, ◌+◌, ◌-◌, ◌<◌, refl, Bool, false, ◌&&◌, ◌||◌, Option, none, some, List, [], ◌∷◌,
  Bytes, length, ◌==◌, ltb, All, arith,
}
use cpplearn.Icmp.{
  byte_at, word_at, header_length, icmp_unreach, icmp_timxceed, get_elem?-some, word_at-some, Given,
  >>=-Given,
}
use cpplearn.Icmp.Trace.{
  Probe, Code, timeout, exceeded, Look, skip, found, look_inside, look_at, Gives, packet,
  interrupted, broken, Wait, Received, returned, err_sys, waiting, after_look, receive, recv_loop,
  recv_v4,
}

look_inside-Given :
    (p : Probe) (buf : Bytes) (hlen1 : ℕ) (ret : Code) → Given (look_inside p buf hlen1 ret)
unfolding look_inside
look_inside-Given p buf hlen1 ret =
    if_keeps Given (ltb (length buf - hlen1) 28) (some skip) _ (λ e. (skip, refl))
      (λ long.
        >>=-Given (byte_at buf (hlen1 + 8)) _
          (get_elem?-some buf (hlen1 + 8) (ground (arith, long)))
          (λ first.
            let hlen2 : ℕ = header_length first in
            if_keeps Given (ltb (length buf - hlen1) (8 + hlen2 + 4)) (some skip) _
              (λ e. (skip, refl))
              (λ ports.
                >>=-Given (byte_at buf (hlen1 + 8 + 9)) _
                  (get_elem?-some buf (hlen1 + 8 + 9) (ground (arith, long)))
                  (λ protocol.
                    >>=-Given (word_at buf (hlen1 + 8 + hlen2)) _
                      (word_at-some buf (hlen1 + 8 + hlen2) (ground (arith, ports)))
                      (λ uh_sport.
                        >>=-Given (word_at buf (hlen1 + 8 + hlen2 + 2)) _
                          (word_at-some buf (hlen1 + 8 + hlen2 + 2) (ground (arith, ports)))
                          (λ uh_dport. (_, refl)))))))

look_at-Given : (p : Probe) (buf : Bytes) → 0 < length buf → Given (look_at p buf)
unfolding look_at
look_at-Given p buf some_bytes =
    >>=-Given (byte_at buf 0) _ (get_elem?-some buf 0 some_bytes) (λ first.
      let hlen1 : ℕ = header_length first in
      if_keeps Given (ltb (length buf) (hlen1 + 8)) (some skip) _ (λ e. (skip, refl))
        (λ long.
          >>=-Given (byte_at buf hlen1) _ (get_elem?-some buf hlen1 (ground (arith, long))) (λ type.
            >>=-Given (byte_at buf (hlen1 + 1)) _
              (get_elem?-some buf (hlen1 + 1) (ground (arith, long)))
              (λ code.
                if_keeps Given (type == icmp_timxceed && code == 0) _ _
                  (λ e. look_inside-Given p buf hlen1 exceeded)
                  (λ e.
                    if_keeps Given (type == icmp_unreach) _ (some skip)
                      (λ e'. look_inside-Given p buf hlen1 _) (λ e'. (skip, refl)))))))

-- A packet of a raw socket has at least one byte, of its IP header.
abbrev pub NotEmpty : Gives → Type 0
NotEmpty (packet buf) = 0 < length buf
NotEmpty interrupted = Unit
NotEmpty (broken e) = Unit

after_look-Given :
    (o : Option Look) (rest : Option Received) → Given o → Given rest → Given (after_look o rest)
unfolding after_look
after_look-Given none rest h k = absurd (ground (arith, h.1))
after_look-Given (some skip) rest h k = k
after_look-Given (some (found code)) rest h k = (returned code, refl)

receive-Given :
    (p : Probe) (g : Gives) (rest : Option Received)
    → NotEmpty g
    → Given rest
    → Given (receive p g rest)
unfolding receive
receive-Given p (packet buf) rest h k =
    after_look-Given (look_at p buf) rest (look_at-Given p buf h) k
receive-Given p interrupted rest h k = k
receive-Given p (broken e) rest h k = (err_sys e, refl)

recv_loop-Given :
    (p : Probe) (gotalarm : Bool) (waits : List Wait)
    → All (λ w. NotEmpty w.gives) waits
    → Given (recv_loop p gotalarm waits)
unfolding recv_loop
recv_loop-Given p gotalarm [] h = (waiting, refl)
recv_loop-Given p gotalarm (w ∷ rest) h =
    if_keeps Given (gotalarm || w.rang) (some (returned timeout)) _ (λ e. (returned timeout, refl))
      (λ e. receive-Given p w.gives _ h.0 (recv_loop-Given p (gotalarm || w.rang) rest h.1))

-- Whatever packets come, each of at least one byte, recv_v4 reads no byte behind the end of what was
-- received, and so it gives a result, or waits for another packet.
pub recv_v4-Given :
    (p : Probe) (waits : List Wait) → All (λ w. NotEmpty w.gives) waits → Given (recv_v4 p waits)
unfolding recv_v4
recv_v4-Given p waits h = recv_loop-Given p false waits h
