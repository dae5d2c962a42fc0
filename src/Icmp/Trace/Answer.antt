-- ===== src/Icmp/Trace/Answer.antt =====
-- unp/unpv13e/traceroute/recv_v4.c: the packets that answer a probe.
use cpplearn.Common.{
  ◌%◌, ◌^◌, ◌≡◌, ◌⊎◌, inl, inr, refl, ◌∙◌, true, false, some, List, [], ◌∷◌, ◌++◌, Bytes, length,
  get_elem?, All,
}
use cpplearn.Icmp.{ipproto_udp}
use cpplearn.Icmp.Trace.{
  Probe, timeout, Gives, packet, interrupted, Wait, returned, after_look, receive, recv_loop,
  recv_v4,
}
use cpplearn.Icmp.Trace.Packets.{
  Answerer, means, IsHeader, answer_packet, is_probe_self, look_at-answer,
}
use cpplearn.Icmp.Trace.Unrelated.{Unrelated, Unrelated-skip}

-- A round in which the loop goes on: no alarm, and a signal, or an unrelated packet.
abbrev pub Passes : Probe → Wait → Type 0
Passes p w =
    (w.rang ≡ false)
    × ((w.gives ≡ interrupted) ⊎ ((buf : Bytes) × (w.gives ≡ packet buf) × Unrelated p buf))

recv_loop-Passes :
    (p : Probe) (before rest : List Wait)
    → All (Passes p) before
    → recv_loop p false (before ++ rest) ≡ recv_loop p false rest
unfolding recv_loop receive after_look
recv_loop-Passes p [] rest h = refl
recv_loop-Passes p (w ∷ before) rest ((quiet, inl e), h) =
    rw (quiet, e) (recv_loop-Passes p before rest h)
recv_loop-Passes p (w ∷ before) rest ((quiet, inr (buf, e, k)), h) =
    rw (quiet, e, Unrelated-skip p buf k) (recv_loop-Passes p before rest h)

-- Behind rounds in which signals or unrelated packets come (too short ones, other ICMP messages, and errors
-- about a datagram of another protocol or with another port), recv_v4 returns -3 where the alarm rings
-- first; and where the answer to the probe comes first, it returns -2 for a router on the way, -1
-- for the target, and the code of any other refusal, whatever options the two IP headers have and
-- whatever stands behind the ports.
pub recv_v4-Answered :
    (p : Probe) (who : Answerer) (outer header inner behind : Bytes) (before rest : List Wait)
    → IsHeader outer
    → IsHeader inner
    → length header ≡ 6
    → get_elem? inner 9 ≡ some ipproto_udp
    → All (Passes p) before
    → ((g : Gives)
        → recv_v4 p (before ++ (record { rang = true; gives = g } ∷ rest))
          ≡ some (returned timeout))
      × (recv_v4 p (
            before
            ++ (record {
              rang = false;
              gives =
                  packet
                    (answer_packet who outer header inner p.from_port (p.to_port % 2 ^ 16) behind);
            }
                ∷ rest))
          ≡ some (returned (means who)))
unfolding recv_v4 recv_loop receive after_look
recv_v4-Answered p who outer header inner behind before rest o n six udp h = (
  λ g. recv_loop-Passes p before _ h,
  recv_loop-Passes p before _ h
      ∙ rw
          (
            look_at-answer p who outer header inner behind ipproto_udp p.from_port
                (p.to_port % 2 ^ 16) o n six udp,
            is_probe_self p,
          )
          refl,
)
