-- ===== src/Tests/Icmp.antt =====
-- Traceroute and ping at concrete packets.
use cpplearn.Common.{
  ℕ, suc, ◌+◌, ◌*◌, ◌<◌, ◌≡◌, inl, inr, refl, true, false, none, some, List, [], ◌∷◌, ◌++◌, Bytes,
  if◌then◌else◌, ltb, All, arith,
}
use cpplearn.Icmp.{word_at, Given}
use cpplearn.Cksum.{in_cksum, word_sum, IsByte}
use cpplearn.Icmp.Trace.{
  Probe, Code, timeout, exceeded, reached, Gives, packet, interrupted, Wait, returned, recv_v4,
  traceloop, send_probe, send_probes, ttl_loop,
}
use cpplearn.Icmp.Ping.{Timeval, tv_sub, pattern, send_v4, reply, proc_reply, proc_v4}
use cpplearn.Icmp.Trace.Within.{recv_v4-Given}
use cpplearn.Icmp.Trace.Packets.{router, target, IsHeader, answer_packet}
use cpplearn.Icmp.Trace.Unrelated.{too_short, other_datagram}
use cpplearn.Icmp.Trace.Answer.{recv_v4-Answered}
use cpplearn.Icmp.Trace.Rounds.{Ends, traceloop-Ends}
use cpplearn.Icmp.Ping.Echo.{echoed, micros, timeval_bytes, proc_v4-send_v4}
use cpplearn.Icmp.Ping.Checksum.{send_v4_checked}

-- An IP header of 20 bytes that carries ICMP with a TTL of 64, and one of 24 bytes that carries UDP.
abbrev outer : Bytes
outer = 0x45 ∷ 0 ∷ 0 ∷ 0 ∷ 0 ∷ 0 ∷ 0 ∷ 0 ∷ 64 ∷ 1 ∷ 0 ∷ 0 ∷ 10 ∷ 0 ∷ 0 ∷ 1 ∷ 10 ∷ 0 ∷ 0 ∷ 2 ∷ []

abbrev inner : Bytes
inner =
    0x46 ∷ 0 ∷ 0 ∷ 0 ∷ 0 ∷ 0 ∷ 0 ∷ 0 ∷ 1 ∷ 17 ∷ 0 ∷ 0 ∷ 10 ∷ 0 ∷ 0 ∷ 2 ∷ 10 ∷ 0 ∷ 9 ∷ 9 ∷ 1 ∷ 1 ∷ 1
    ∷ 1 ∷ []

outer-IsHeader : IsHeader outer
outer-IsHeader = record { first = 0x45; at_first = refl; long = refl; least = omega arith }

inner-IsHeader : IsHeader inner
inner-IsHeader = record { first = 0x46; at_first = refl; long = refl; least = omega arith }

abbrev probe : Probe
probe = record { from_port = 40000; to_port = 33435 }

abbrev six : Bytes
six = 0 ∷ 0 ∷ 0 ∷ 0 ∷ 0 ∷ 0 ∷ []

abbrev from_target : Bytes
from_target = answer_packet target outer six inner 40000 33435 (1 ∷ 2 ∷ [])

-- A signal, a packet that is too short, and one about another port come before the answer.
abbrev stray : Bytes
stray = answer_packet router outer six inner 40000 33436 []

abbrev before : List Wait
before =
    record { rang = false; gives = interrupted }
    ∷ record { rang = false; gives = packet (0x45 ∷ 0 ∷ []) }
    ∷ record { rang = false; gives = packet stray }
    ∷ []

recv_v4-Answered_example :
    ((g : Gives)
      → recv_v4 probe (before ++ (record { rang = true; gives = g } ∷ []))
        ≡ some (returned timeout))
    × (recv_v4 probe (before ++ (record { rang = false; gives = packet from_target } ∷ []))
        ≡ some (returned reached))
recv_v4-Answered_example =
    recv_v4-Answered probe target outer six inner (1 ∷ 2 ∷ []) before [] outer-IsHeader
      inner-IsHeader refl refl
      (
        (refl, inl refl),
        (
          (refl, inr (_, refl, too_short _ 0x45 refl (omega arith))),
          (
            (
              refl,
              inr (
                stray,
                refl,
                other_datagram router outer six inner [] 17 40000 33436 outer-IsHeader
                    inner-IsHeader refl refl (inr (inr (λ e. omega (arith, e)))),
              ),
            ),
            tt,
          ),
        ),
      )

recv_v4-Given_example : Given (recv_v4 probe before)
recv_v4-Given_example = recv_v4-Given probe before (tt, (omega arith, (omega arith, tt)))

-- Two routers, then the host, three probes each.
abbrev codes_of : ℕ → Code
codes_of seq = if ltb seq 7 then exceeded else reached

route : (traceloop 33434 codes_of 3 30).seq ≡ 9
unfolding traceloop ttl_loop send_probes send_probe
route = refl

traceloop-Ends_example : Ends 33434 codes_of 3 30 (traceloop 33434 codes_of 3 30)
traceloop-Ends_example = traceloop-Ends 33434 codes_of 3 30

abbrev stamp : Bytes
stamp = 1 ∷ 2 ∷ 3 ∷ 4 ∷ 5 ∷ 6 ∷ 7 ∷ 8 ∷ 9 ∷ 10 ∷ 11 ∷ 12 ∷ 13 ∷ 14 ∷ 15 ∷ 16 ∷ []

stamp-IsByte : All IsByte stamp
stamp-IsByte = (
  omega arith,
  (
    omega arith,
    (
      omega arith,
      (
        omega arith,
        (
          omega arith,
          (
            omega arith,
            (
              omega arith,
              (
                omega arith,
                (
                  omega arith,
                  (
                    omega arith,
                    (
                      omega arith,
                      (omega arith, (omega arith, (omega arith, (omega arith, (omega arith, tt))))),
                    ),
                  ),
                ),
              ),
            ),
          ),
        ),
      ),
    ),
  ),
)

-- The packet has an odd length.
send_v4_checked_example :
    ((k : ℕ) × (word_sum (send_v4 4242 7 57 stamp).0 ≡ 65535 * suc k))
    × (in_cksum (send_v4 4242 7 57 stamp).0 ≡ 0)
send_v4_checked_example = send_v4_checked 4242 7 57 stamp stamp-IsByte (omega arith)

-- Sent at 5.9 seconds, received at 7.1.
abbrev sent_at : Timeval
sent_at = record { tv_sec = 5; tv_usec = 900000 }

abbrev received_at : Timeval
received_at = record { tv_sec = 7; tv_usec = 100000 }

one_rtt : tv_sub received_at sent_at ≡ record { tv_sec = 1; tv_usec = 200000 }
unfolding tv_sub
one_rtt = refl

proc_v4-send_v4_example :
    (rtt : Timeval) × (proc_v4 4242 false received_at
        (echoed outer 0 0 (send_v4 4242 7 56 (timeval_bytes sent_at)).0)
      ≡ some (reply 64 7 64 rtt))
    × (micros rtt + 5900000 ≡ 7100000)
    × (rtt.tv_usec < 1000000)
proc_v4-send_v4_example =
    proc_v4-send_v4 4242 7 56 64 0 0 false sent_at received_at outer (omega arith) (omega arith)
      (record { positive = omega arith; within = omega arith })
      (record { positive = omega arith; within = omega arith }) (omega arith) outer-IsHeader refl
      refl

-- A reply with 8 bytes of data passes the test, and the time is read behind its end.
short_reply :
    proc_v4 4242 false received_at (outer ++ (0 ∷ 0 ∷ 0 ∷ 0 ∷ 146 ∷ 16 ∷ 0 ∷ 0 ∷ pattern 8)) ≡ none
unfolding proc_v4 proc_reply word_at
short_reply = refl
