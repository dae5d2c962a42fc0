-- ===== src/Icmp/Trace/Unrelated.antt =====
-- unp/unpv13e/traceroute/recv_v4.c: the packets that do not answer a probe.
use cpplearn.Common.{
  ◌&&◌, ℕ, ◌+◌, ◌-◌, ◌≤◌, ◌<◌, ◌≡◌, ◌≢◌, ◌⊎◌, refl, sym, ap, ◌∙◌, Bool, true, false, some, ◌∷◌,
  ◌++◌, Bytes, length, get_elem?, if◌then◌else◌, ◌==◌, ltb, arith, length-append,
}
use cpplearn.Icmp.{byte_at, header_length, get_elem?-append, get_elem?-append_front}
use cpplearn.Icmp.Trace.{Probe, Code, skip, found, look_inside, look_at}
use cpplearn.Icmp.Trace.Packets.{
  Answerer, type_of, code_of, means, IsHeader, answer_packet, Differs, is_probe_other,
  look_at-found, look_at-answer,
}

-- A packet that is no answer to the probe.
pub data Unrelated (p : Probe) : Bytes → Type 0 where
  -- too short for an ICMP header
  too_short :
      (buf : Bytes) (first : ℕ)
      → get_elem? buf 0 ≡ some first
      → length buf < header_length first + 8
      → Unrelated p buf
  -- an ICMP message that is neither "time exceeded in transit" nor "destination unreachable"
  other_message :
      (outer rest : Bytes) (type code : ℕ)
      → IsHeader outer
      → 6 ≤ length rest
      → type ≢ 3
      → (type ≢ 11) ⊎ (code ≢ 0)
      → Unrelated p (outer ++ (type ∷ code ∷ rest))
  -- such an error about a datagram of another protocol or with other ports
  other_datagram :
      (who : Answerer) (outer header inner behind : Bytes) (protocol from_port to_port : ℕ)
      → IsHeader outer
      → IsHeader inner
      → length header ≡ 6
      → get_elem? inner 9 ≡ some protocol
      → Differs p protocol from_port to_port
      → Unrelated p (answer_packet who outer header inner from_port to_port behind)
  -- such an error that is too short for the IP header inside it
  cut_off :
      (who : Answerer) (outer rest : Bytes)
      → IsHeader outer
      → 6 ≤ length rest
      → length rest < 26
      → Unrelated p (outer ++ (type_of who ∷ code_of who ∷ rest))

look_at_short :
    (p : Probe) (buf : Bytes) (first : ℕ)
    → get_elem? buf 0 ≡ some first
    → length buf < header_length first + 8
    → look_at p buf ≡ some skip
unfolding look_at
look_at_short p buf first a short =
    let e : ltb (length buf) (header_length first + 8) ≡ true = ground (arith, short) in
    rw (a, e) refl

-- The reads of the ICMP header.
module _ (p : Probe) (outer rest : Bytes) (type code : ℕ) (o : IsHeader outer)
    (six : 6 ≤ length rest) where
  abbrev whole : Bytes
  whole = outer ++ (type ∷ code ∷ rest)

  length-whole : length whole ≡ length outer + 2 + length rest
  length-whole = omega (arith, length-append outer (type ∷ code ∷ rest))

  whole_first : byte_at whole 0 ≡ some o.first
  whole_first = get_elem?-append_front outer (type ∷ code ∷ rest) 0 o.first o.at_first

  whole_type : byte_at whole (header_length o.first) ≡ some type
  whole_type =
      ap (byte_at whole) (omega (arith, o.long)) ∙ get_elem?-append outer (type ∷ code ∷ rest) 0

  whole_code : byte_at whole (header_length o.first + 1) ≡ some code
  whole_code =
      ap (byte_at whole) (omega (arith, o.long)) ∙ get_elem?-append outer (type ∷ code ∷ rest) 1

  look_at_other : type ≢ 3 → (type ≢ 11) ⊎ (code ≢ 0) → look_at p whole ≡ some skip
  unfolding look_at
  look_at_other a b =
      let e : ltb (length whole) (header_length o.first + 8) ≡ false =
        ground (arith, length-whole, o.long, six) in
      let f : (type == 3) ≡ false = ground (arith, a) in
      let g : (type == 11 && code == 0) ≡ false = ground (arith, b) in
      rw (whole_first, e, whole_type, whole_code, g, f) refl

  look_inside_cut :
      (ret : Code) → length rest < 26 → look_inside p whole (length outer) ret ≡ some skip
  unfolding look_inside
  look_inside_cut ret short =
      let e : ltb (length whole - length outer) (8 + 20) ≡ true =
        ground (arith, length-whole, short) in
      rw e refl

look_at_cut :
    (p : Probe) (who : Answerer) (outer rest : Bytes)
    → IsHeader outer
    → 6 ≤ length rest
    → length rest < 26
    → look_at p (outer ++ (type_of who ∷ code_of who ∷ rest)) ≡ some skip
look_at_cut p who outer rest o six short =
    look_at-found (λ ret. skip) p (outer ++ (type_of who ∷ code_of who ∷ rest)) o.first who
      (whole_first p outer rest (type_of who) (code_of who) o six)
      (λ less.
        omega
          (arith, less, length-whole p outer rest (type_of who) (code_of who) o six, o.long, six))
      (whole_type p outer rest (type_of who) (code_of who) o six)
      (whole_code p outer rest (type_of who) (code_of who) o six)
      (λ ret.
        ap (λ h. look_inside p (outer ++ (type_of who ∷ code_of who ∷ rest)) h ret) (sym o.long)
        ∙ look_inside_cut p outer rest (type_of who) (code_of who) o six ret short)

-- The loop skips every unrelated packet.
pub Unrelated-skip : (p : Probe) (buf : Bytes) → Unrelated p buf → look_at p buf ≡ some skip
Unrelated-skip p _ (too_short buf first a short) = look_at_short p buf first a short
Unrelated-skip p _ (other_message outer rest type code o six a b) =
    look_at_other p outer rest type code o six a b
Unrelated-skip p _
      (other_datagram who outer header inner behind protocol from to o n six c differs) =
    look_at-answer p who outer header inner behind protocol from to o n six c
    ∙ ap (λ (b : Bool). some (if b then found (means who) else skip))
        (is_probe_other p protocol from to differs)
Unrelated-skip p _ (cut_off who outer rest o six short) = look_at_cut p who outer rest o six short
