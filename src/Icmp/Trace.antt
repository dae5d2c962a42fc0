-- ===== src/Icmp/Trace.antt =====
-- unp/unpv13e/traceroute: recv_v4.c, which waits for the answer to a probe, and traceloop.c, the loop
-- over the probes.
pub mod Within
pub mod Packets
pub mod Unrelated
pub mod Answer
pub mod Rounds
use cpplearn.Common.{
  ℕ, zero, suc, ◌+◌, ◌-◌, ◌%◌, ◌^◌, Bool, true, false, ◌&&◌, ◌||◌, Option, none, some, List, [],
  ◌∷◌, ◌++◌, Bytes, codes, length, if◌then◌else◌, ◌==◌, ltb,
}
use cpplearn.Common.Decimal.{htons}
use cpplearn.Icmp.{
  ◌>>=◌, byte_at, word_at, header_length, icmp_unreach, icmp_timxceed, icmp_unreach_port,
  ipproto_udp,
}

-- The ports of a probe: `sport`, and `dport + seq`.
pub record Probe : Type 0 where
  pub from_port : ℕ
  pub to_port : ℕ

-- What recv_v4 returns: -3, -2, -1 and the code of another ICMP unreachable.
pub data Code : Type 0 where
  timeout exceeded reached : Code
  unreachable : ℕ → Code

-- What the loop does with a packet: `continue` or another round, or `break` with a value of `ret`.
pub data Look : Type 0 where
  skip : Look
  found : Code → Look

unfoldable pub is_probe : Probe → ℕ → ℕ → ℕ → Bool
is_probe p protocol uh_sport uh_dport =
    protocol == ipproto_udp
    && uh_sport == htons p.from_port
    && uh_dport == htons (p.to_port % 2 ^ 16)

-- The IP header inside the ICMP error, at `hlen1 + 8`, and the UDP ports behind it.
unfoldable pub look_inside : Probe → Bytes → ℕ → Code → Option Look
look_inside p buf hlen1 ret = if ltb (length buf - hlen1) (8 + 20) then some skip else do
  first ← byte_at buf (hlen1 + 8)
  let hlen2 = header_length first
  if ltb (length buf - hlen1) (8 + hlen2 + 4) then some skip else do
    protocol ← byte_at buf (hlen1 + 8 + 9)
    uh_sport ← word_at buf (hlen1 + 8 + hlen2)
    uh_dport ← word_at buf (hlen1 + 8 + hlen2 + 2)
    some (if is_probe p protocol uh_sport uh_dport then found ret else skip)

unfoldable pub look_at : Probe → Bytes → Option Look
look_at p buf = do
  first ← byte_at buf 0
  let hlen1 = header_length first
  if ltb (length buf) (hlen1 + 8) then some skip else do
    type ← byte_at buf hlen1
    code ← byte_at buf (hlen1 + 1)
    if type == icmp_timxceed && code == 0
        then look_inside p buf hlen1 exceeded
        else if type == icmp_unreach
        then look_inside p buf hlen1
            (if code == icmp_unreach_port then reached else unreachable code)
        else some skip

-- A round of the loop: whether SIGALRM came before its test of `gotalarm`, and what recvfrom gives:
-- a packet, -1 with EINTR, or -1 with another errno.
pub data Gives : Type 0 where
  packet : Bytes → Gives
  interrupted : Gives
  broken : ℕ → Gives

pub record Wait : Type 0 where
  pub rang : Bool
  pub gives : Gives

-- `err_sys` ends the process. Behind the rounds that are given, recv_v4 still waits.
pub data Received : Type 0 where
  returned : Code → Received
  err_sys : ℕ → Received
  waiting : Received

unfoldable pub after_look : Option Look → Option Received → Option Received
after_look none rest = none
after_look (some skip) rest = rest
after_look (some (found code)) rest = some (returned code)

unfoldable pub receive : Probe → Gives → Option Received → Option Received
receive p (packet buf) rest = after_look (look_at p buf) rest
receive p interrupted rest = rest
receive p (broken e) rest = some (err_sys e)

-- `gotalarm` stays set.
unfoldable pub recv_loop : Probe → Bool → List Wait → Option Received
recv_loop p gotalarm [] = some waiting
recv_loop p gotalarm (w ∷ rest) =
    let later = recv_loop p (gotalarm || w.rang) rest in
    if gotalarm || w.rang then some (returned timeout) else receive p w.gives later

unfoldable pub recv_v4 : Probe → List Wait → Option Received
recv_v4 p waits = recv_loop p false waits

-- traceloop: a datagram that was sent, with its TTL and its port. `codes` is what recv_v4 returns for
-- a probe, by its sequence number.
pub record Sent : Type 0 where
  pub rec_ttl : ℕ
  pub rec_seq : ℕ
  pub to_port : ℕ

abbrev pub is_reached : Code → Bool
is_reached reached = true
is_reached _ = false

pub record Round : Type 0 where
  pub seq : ℕ
  pub done : ℕ
  pub sent : List Sent

-- A probe.
unfoldable pub send_probe : ℕ → (ℕ → Code) → ℕ → Round → Round
send_probe dport codes ttl r =
    let seq = r.seq + 1 in
    record {
      seq = seq;
      done = if is_reached (codes seq) then r.done + 1 else r.done;
      sent =
          r.sent
          ++ (record { rec_ttl = ttl; rec_seq = seq % 2 ^ 16; to_port = (dport + seq) % 2 ^ 16 }
              ∷ []);
    }

-- `nprobes` probes with the same TTL.
unfoldable pub send_probes : ℕ → (ℕ → Code) → ℕ → ℕ → Round → Round
send_probes dport codes ttl zero r = r
send_probes dport codes ttl (suc n) r = send_probes dport codes ttl n (send_probe dport codes ttl r)

-- The loop over the TTL, for the values that are left up to `max_ttl`.
unfoldable pub ttl_loop : ℕ → (ℕ → Code) → ℕ → ℕ → ℕ → Round → Round
ttl_loop dport codes nprobes ttl zero r = r
ttl_loop dport codes nprobes ttl (suc left) r =
    let next =
      ttl_loop dport codes nprobes (ttl + 1) left (send_probes dport codes ttl nprobes r) in
    if r.done == 0 then next else r

unfoldable pub traceloop : ℕ → (ℕ → Code) → ℕ → ℕ → Round
traceloop dport codes nprobes max_ttl =
    ttl_loop dport codes nprobes 1 max_ttl (record { seq = 0; done = 0; sent = [] })
