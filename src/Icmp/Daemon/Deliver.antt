-- ===== src/Icmp/Daemon/Deliver.antt =====
-- unp/unpv13e/icmpd: which bytes of a packet are read, and to whom an error goes.
use cpplearn.Common.{
  if_keeps, ℕ, ◌+◌, ◌-◌, ◌≤◌, ◌<◌, ◌≡◌, refl, Option, none, some, List, [], ◌∷◌, Bytes, length,
  ◌==◌, ltb, leb, arith,
}
use cpplearn.Icmp.{
  ◌>>=◌, byte_at, word_at, header_length, ipproto_udp, get_elem?-some, word_at-some, Given,
  >>=-Given,
}
use cpplearn.Icmp.Daemon.{
  Daemon, handled, quit, address_at, send_errors, pass_error, is_error, error_v4, readable_v4,
}

-- The ports behind the IP header inside the error are within the packet.
abbrev pub HasPorts : Bytes → Type 0
HasPorts buf =
    (first inner : ℕ)
    → byte_at buf 0 ≡ some first
    → byte_at buf (header_length first + 8) ≡ some inner
    → header_length first + 8 + header_length inner + 4 ≤ length buf

address_at-Given : (buf : Bytes) (i : ℕ) → i + 4 ≤ length buf → Given (address_at buf i)
address_at-Given buf i h =
    if_keeps Given (leb (i + 4) (length buf)) _ none (λ e. (_, refl))
      (λ e. absurd (ground (arith, e, h)))

send_errors-Given :
    (d : Daemon) (buf : Bytes) (hlen1 hlen2 type code : ℕ) (fds : List ℕ)
    → hlen1 + 36 ≤ length buf
    → hlen1 + 8 + hlen2 + 4 ≤ length buf
    → Given (send_errors d buf hlen1 hlen2 type code fds)
unfolding send_errors
send_errors-Given d buf hlen1 hlen2 type code [] h k = (_, refl)
send_errors-Given d buf hlen1 hlen2 type code (fd ∷ fds) h k =
    >>=-Given (address_at buf (hlen1 + 8 + 16)) _
      (address_at-Given buf (hlen1 + 8 + 16) (omega (arith, h)))
      (λ dest.
        >>=-Given (word_at buf (hlen1 + 8 + hlen2 + 2)) _
          (word_at-some buf (hlen1 + 8 + hlen2 + 2) (omega (arith, k))) (λ dport. (_, refl)))

pass_error-Given :
    (d : Daemon) (buf : Bytes) (hlen1 hlen2 type code : ℕ)
    → hlen1 + 36 ≤ length buf
    → hlen1 + 8 + hlen2 + 4 ≤ length buf
    → Given (pass_error d buf hlen1 hlen2 type code)
unfolding pass_error
pass_error-Given d buf hlen1 hlen2 type code h k =
    >>=-Given (word_at buf (hlen1 + 8 + hlen2)) _
      (word_at-some buf (hlen1 + 8 + hlen2) (omega (arith, k)))
      (λ sport. send_errors-Given d buf hlen1 hlen2 type code _ h k)

-- A read whose value is known to its continuation.
with-Given {ℓ κ} :
    {A : Type ℓ} {B : Type κ} (m : Option A) (f : A → Option B)
    → Given m
    → ((a : A) → m ≡ some a → Given (f a))
    → Given (m >>= f)
with-Given none f h k = absurd (ground (arith, h.1))
with-Given (some a) f h k = k a refl

error_v4-Given :
    (d : Daemon) (buf : Bytes) (first type code : ℕ)
    → byte_at buf 0 ≡ some first
    → HasPorts buf
    → Given (error_v4 d buf (header_length first) type code)
unfolding error_v4
error_v4-Given d buf first type code at ports =
    if_keeps Given (ltb (length buf - header_length first) (8 + 20 + 8)) (some quit) _
      (λ e. (quit, refl))
      (λ long.
        let enough : header_length first + 36 ≤ length buf = ground (arith, long) in
        with-Given (byte_at buf (header_length first + 8)) _
          (get_elem?-some buf (header_length first + 8) (omega (arith, enough)))
          (λ inner at_inner.
            >>=-Given (byte_at buf (header_length first + 8 + 9)) _
              (get_elem?-some buf (header_length first + 8 + 9) (omega (arith, enough)))
              (λ protocol.
                if_keeps Given (protocol == ipproto_udp) _ (some (handled d))
                  (λ udp.
                    pass_error-Given d buf (header_length first) (header_length inner) type code
                      enough (ports first inner at at_inner))
                  (λ other. (handled d, refl)))))

-- A packet of at least one byte that holds the ports of the probe behind the IP header in it is read
-- within its bounds, whatever the clients are.
pub readable_v4-Given :
    (buf : Bytes) (d : Daemon) → 0 < length buf → HasPorts buf → Given (readable_v4 buf d)
unfolding readable_v4
readable_v4-Given buf d more ports =
    with-Given (byte_at buf 0) _ (get_elem?-some buf 0 more) (λ first at.
      if_keeps Given (ltb (length buf) (header_length first + 8)) (some quit) _ (λ e. (quit, refl))
        (λ long.
          let enough : header_length first + 8 ≤ length buf = ground (arith, long) in
          >>=-Given (byte_at buf (header_length first)) _
            (get_elem?-some buf (header_length first) (omega (arith, enough)))
            (λ type.
              >>=-Given (byte_at buf (header_length first + 1)) _
                (get_elem?-some buf (header_length first + 1) (omega (arith, enough)))
                (λ code.
                  if_keeps Given (is_error type) _ (some (handled d))
                    (λ e. error_v4-Given d buf first type code at ports)
                    (λ e. (handled d, refl))))))
