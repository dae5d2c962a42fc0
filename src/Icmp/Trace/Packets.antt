-- ===== src/Icmp/Trace/Packets.antt =====
-- unp/unpv13e/traceroute/recv_v4.c: the ICMP errors about a datagram, and what the loop reads of them.
use cpplearn.Common.{
  Bool-cases, ℕ, ◌+◌, ◌-◌, ◌/◌, ◌%◌, ◌^◌, ◌≤◌, ◌<◌, ◌≡◌, ◌≢◌, ◌⊎◌, inl, inr, refl, sym, ap, ◌∙◌,
  true, false, some, [], ◌∷◌, ◌++◌, Bytes, length, get_elem?, if◌then◌else◌, ◌==◌, ltb, arith,
  length-append,
}
use cpplearn.Common.Decimal.{htons}
use cpplearn.Icmp.{
  byte_at, word_at, header_length, ipproto_udp, get_elem?-append, get_elem?-append_front,
  word_at-append,
}
use cpplearn.Icmp.Trace.{
  Probe, Code, exceeded, reached, unreachable, Look, skip, found, is_probe, look_inside, look_at,
}

-- Who answers: a router on the way, the host itself whose port is not open, or some machine that
-- refuses with a code of its own.
pub data Answerer : Type 0 where
  router target : Answerer
  refusal : (code : ℕ) → code ≢ 3 → Answerer

abbrev pub type_of : Answerer → ℕ
type_of router = 11
type_of target = 3
type_of (refusal code h) = 3

abbrev pub code_of : Answerer → ℕ
code_of router = 0
code_of target = 3
code_of (refusal code h) = code

abbrev pub means : Answerer → Code
means router = exceeded
means target = reached
means (refusal code h) = unreachable code

-- An IP header says how long it is, which is 20 bytes at least.
pub record IsHeader (header : Bytes) : Type 0 where
  pub first : ℕ
  pub at_first : get_elem? header 0 ≡ some first
  pub long : length header ≡ header_length first
  pub least : 20 ≤ length header

-- A port in network byte order.
abbrev pub port_bytes : ℕ → Bytes
port_bytes port = port / 256 % 256 ∷ port % 256 ∷ []

-- The answer to a probe with these ports: an IP header, the ICMP header with its type and code,
-- and the start of the probe, which is its IP header, the UDP ports and whatever is behind them.
abbrev pub answer_packet : Answerer → (outer header inner : Bytes) → ℕ → ℕ → Bytes → Bytes
answer_packet who outer header inner from_port to_port behind =
    (outer ++ (type_of who ∷ code_of who ∷ header))
    ++ (inner ++ ((port_bytes from_port ++ port_bytes to_port) ++ behind))

pub is_probe_self :
    (p : Probe) → is_probe p ipproto_udp (htons p.from_port) (htons (p.to_port % 2 ^ 16)) ≡ true
unfolding is_probe
is_probe_self p = ground arith

-- A protocol or ports that are not those of the probe.
abbrev pub Differs : Probe → (protocol from_port to_port : ℕ) → Type 0
Differs p protocol from_port to_port =
    (protocol ≢ 17)
    ⊎ ((from_port % 2 ^ 16 ≢ p.from_port % 2 ^ 16) ⊎ (to_port % 2 ^ 16 ≢ p.to_port % 2 ^ 16))

htons-injective : (a b : ℕ) → htons a ≡ htons b → a % 2 ^ 16 ≡ b % 2 ^ 16
htons-injective a b e = omega (arith, e)

pub is_probe_other :
    (p : Probe) (protocol from_port to_port : ℕ)
    → Differs p protocol from_port to_port
    → is_probe p protocol (htons from_port) (htons to_port) ≡ false
unfolding is_probe
is_probe_other p protocol from_port to_port (inl other) = ground (arith, other)
is_probe_other p protocol from_port to_port (inr (inl other)) =
    let differ : (htons from_port == htons p.from_port) ≡ false =
      elim (Bool-cases (htons from_port == htons p.from_port)) [
        | inl e ↦ absurd (other (htons-injective from_port p.from_port (ground (arith, e))))
        | inr e ↦ e
      ] in
    ground (arith, differ)
is_probe_other p protocol from_port to_port (inr (inr other)) = ground (arith, other)

-- What the loop makes of the start of a datagram with this protocol and these ports.
abbrev pub looked : Probe → (protocol from_port to_port : ℕ) → Code → Look
looked p protocol from_port to_port ret =
    if is_probe p protocol (htons from_port) (htons to_port) then found ret else skip

-- What look_at makes of what it reads, and what look_inside makes of the rest.
pub look_at-found :
    (f : Code → Look) (p : Probe) (buf : Bytes) (first : ℕ) (who : Answerer)
    → byte_at buf 0 ≡ some first
    → (length buf < header_length first + 8 → ⊥)
    → byte_at buf (header_length first) ≡ some (type_of who)
    → byte_at buf (header_length first + 1) ≡ some (code_of who)
    → ((ret : Code) → look_inside p buf (header_length first) ret ≡ some (f ret))
    → look_at p buf ≡ some (f (means who))
unfolding look_at
look_at-found f p buf first router a enough b c inside =
    let e : ltb (length buf) (header_length first + 8) ≡ false = ground (arith, enough) in
    rw (a, e, b, c) (inside exceeded)
look_at-found f p buf first target a enough b c inside =
    let e : ltb (length buf) (header_length first + 8) ≡ false = ground (arith, enough) in
    rw (a, e, b, c) (inside reached)
look_at-found f p buf first (refusal code other) a enough b c inside =
    let e : ltb (length buf) (header_length first + 8) ≡ false = ground (arith, enough) in
    let k : (code == 3) ≡ false = ground (arith, other) in
    rw (a, e, b, c, k) (inside (unreachable code))

-- What look_inside makes of what it reads.
look_inside-found :
    (p : Probe) (buf : Bytes) (hlen1 first protocol from_port to_port : ℕ) (ret : Code)
    → (length buf - hlen1 < 28 → ⊥)
    → byte_at buf (hlen1 + 8) ≡ some first
    → (length buf - hlen1 < 8 + header_length first + 4 → ⊥)
    → byte_at buf (hlen1 + 8 + 9) ≡ some protocol
    → word_at buf (hlen1 + 8 + header_length first) ≡ some (htons from_port)
    → word_at buf (hlen1 + 8 + header_length first + 2) ≡ some (htons to_port)
    → look_inside p buf hlen1 ret ≡ some (looked p protocol from_port to_port ret)
unfolding look_inside
look_inside-found p buf hlen1 first protocol from_port to_port ret enough a ports b c d =
    let e1 : ltb (length buf - hlen1) (8 + 20) ≡ false = ground (arith, enough) in
    let e2 : ltb (length buf - hlen1) (8 + header_length first + 4) ≡ false =
      ground (arith, ports) in
    rw (e1, a, e2, b, c, d) refl

module _ (p : Probe) (who : Answerer) (outer header inner behind : Bytes)
    (protocol from_port to_port : ℕ) (o : IsHeader outer) (n : IsHeader inner)
    (six : length header ≡ 6) (carries : get_elem? inner 9 ≡ some protocol) where
  abbrev buf : Bytes
  buf = answer_packet who outer header inner from_port to_port behind

  abbrev icmp : Bytes
  icmp = type_of who ∷ code_of who ∷ header

  abbrev ports : Bytes
  ports = (port_bytes from_port ++ port_bytes to_port) ++ behind

  front : length (outer ++ icmp) ≡ length outer + 8
  front = omega (arith, length-append outer icmp, six)

  length-buf : length buf ≡ length outer + 8 + length inner + 4 + length behind
  length-buf =
      omega
        (arith, length-append (outer ++ icmp) (inner ++ ports), length-append inner ports, front)

  read_first : byte_at buf 0 ≡ some o.first
  read_first =
      get_elem?-append_front (outer ++ icmp) (inner ++ ports) 0 o.first
        (get_elem?-append_front outer icmp 0 o.first o.at_first)

  -- The type and the code.
  read_icmp : (i v : ℕ) → get_elem? icmp i ≡ some v → byte_at buf (length outer + i) ≡ some v
  read_icmp i v e =
      get_elem?-append_front (outer ++ icmp) (inner ++ ports) (length outer + i) v
        (get_elem?-append outer icmp i ∙ e)

  -- The IP header of the probe.
  read_inner : (i v : ℕ) → get_elem? inner i ≡ some v → byte_at buf (length outer + 8 + i) ≡ some v
  read_inner i v e = rw (sym front) (
      get_elem?-append (outer ++ icmp) (inner ++ ports) i
      ∙ get_elem?-append_front inner ports i v e)

  -- Its ports.
  read_ports :
      (i v : ℕ)
      → word_at ports i ≡ some v
      → word_at buf (length outer + 8 + length inner + i) ≡ some v
  read_ports i v e =
      let shift : length outer + 8 + length inner + i
          ≡ length (outer ++ icmp) + (length inner + i) =
        omega (arith, front) in
      rw shift (
        word_at-append (outer ++ icmp) (inner ++ ports) (length inner + i)
        ∙ word_at-append inner ports i
        ∙ e)

  first_port : word_at ports 0 ≡ some (htons from_port)
  unfolding word_at
  first_port = ap some (omega arith)

  second_port : word_at ports 2 ≡ some (htons to_port)
  unfolding word_at
  second_port = ap some (omega arith)

  inside :
      (ret : Code)
      → look_inside p buf (length outer) ret ≡ some (looked p protocol from_port to_port ret)
  inside ret =
      look_inside-found p buf (length outer) n.first protocol from_port to_port ret
        (λ short. omega (arith, short, length-buf, n.least))
        (ap (byte_at buf) (omega arith) ∙ read_inner 0 n.first n.at_first)
        (λ short. omega (arith, short, length-buf, n.long)) (read_inner 9 protocol carries)
        (ap (word_at buf) (omega (arith, n.long)) ∙ read_ports 0 (htons from_port) first_port)
        (ap (word_at buf) (omega (arith, n.long)) ∙ read_ports 2 (htons to_port) second_port)

  -- An ICMP error with the start of a datagram is looked at by its protocol and ports.
  pub look_at-answer : look_at p buf ≡ some (looked p protocol from_port to_port (means who))
  look_at-answer =
      look_at-found (looked p protocol from_port to_port) p buf o.first who read_first
        (λ short. omega (arith, short, length-buf, o.long))
        (ap (byte_at buf) (omega (arith, o.long)) ∙ read_icmp 0 (type_of who) refl)
        (ap (byte_at buf) (omega (arith, o.long)) ∙ read_icmp 1 (code_of who) refl)
        (λ ret. ap (λ h. look_inside p buf h ret) (sym o.long) ∙ inside ret)
