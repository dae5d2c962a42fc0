-- ===== src/Sock/Print.antt =====
-- unp/unpv13e/lib/sock_ntop.c and sock_ntop_host.c: a socket address as text. inet_ntop is a
-- parameter: the text of an address of a family, if it fits a buffer of some size.
use cpplearn.Common.{
  ℕ, ◌^◌, ◌<◌, ◌≡◌, ◌≢◌, false, Option, none, some, [], ◌∷◌, ◌++◌, Bytes, codes, if◌then◌else◌,
  ◌==◌, arith, take_all,
}
use cpplearn.Common.Decimal.{htons, decimal, snprintf, atoi, atoi-decimal, length-decimal}
use cpplearn.Sock.{Address, inet, inet6, unix, other}

abbrev pub InetNtop : Type 0
InetNtop = ℕ → Bytes → ℕ → Option Bytes

abbrev map_text : (Bytes → Bytes) → Option Bytes → Option Bytes
map_text f none = none
map_text f (some s) = some (f s)

-- `snprintf(portstr, sizeof(portstr), ":%d", port)`, and the same behind `]`.
abbrev port_text : ℕ → Bytes
port_text port = snprintf 8 (b':' ∷ decimal port)

abbrev bracket_text : ℕ → Bytes
bracket_text port = snprintf 8 (b']' ∷ b':' ∷ decimal port)

-- A path whose first byte is null is none.
abbrev unix_text : Bytes → Bytes
unix_text [] = codes "(no pathname bound)"
unix_text (c ∷ path) = snprintf 128 (c ∷ path)

unknown_text : Bytes → ℕ → ℕ → Bytes
unknown_text name family salen =
    snprintf 128 (
      name ++ (codes ": unknown AF_xxx: " ++ (decimal family ++ (codes ", len " ++ decimal salen))))

module _ (inet_ntop : InetNtop) where
  unfoldable pub sock_ntop : Address → ℕ → Option Bytes
  unfolding unknown_text
  sock_ntop (inet p a) salen =
      map_text (λ s. if htons p == 0 then s else s ++ port_text (htons p)) (inet_ntop 2 a 128)
  sock_ntop (inet6 p a) salen =
      map_text (λ s. if htons p == 0 then s else b'[' ∷ (s ++ bracket_text (htons p)))
        (inet_ntop 10 a 127)
  sock_ntop (unix path) salen = some (unix_text path)
  sock_ntop (other family) salen = some (unknown_text (codes "sock_ntop") family salen)

  unfoldable pub sock_ntop_host : Address → ℕ → Option Bytes
  unfolding unknown_text
  sock_ntop_host (inet p a) salen = inet_ntop 2 a 128
  sock_ntop_host (inet6 p a) salen = inet_ntop 10 a 128
  sock_ntop_host (unix path) salen = some (unix_text path)
  sock_ntop_host (other family) salen = some (unknown_text (codes "sock_ntop_host") family salen)

  htons-lt : (p : ℕ) → htons p < 2 ^ 16
  htons-lt p = omega arith

  port_text_whole : (p : ℕ) → port_text (htons p) ≡ b':' ∷ decimal (htons p)
  port_text_whole p =
      take_all 7 (b':' ∷ decimal (htons p)) (omega (arith, length-decimal (htons p) (htons-lt p)))

  bracket_text_whole : (p : ℕ) → bracket_text (htons p) ≡ b']' ∷ b':' ∷ decimal (htons p)
  bracket_text_whole p =
      take_all 7 (b']' ∷ b':' ∷ decimal (htons p))
        (omega (arith, length-decimal (htons p) (htons-lt p)))

  -- An IPv4 address with a port is printed with a colon and the whole port behind it: `portstr` is
  -- large enough, and atoi reads the port, in host byte order, back.
  pub sock_ntop_inet :
      (p salen : ℕ) (a s : Bytes)
      → htons p ≢ 0
      → inet_ntop 2 a 128 ≡ some s
      → (t : Bytes) × (sock_ntop (inet p a) salen ≡ some (s ++ b':' ∷ t)) × (atoi t ≡ htons p)
  unfolding sock_ntop
  sock_ntop_inet p salen a s port e =
      let ported : (htons p == 0) ≡ false = ground arith in
      (decimal (htons p), rw (e, ported, port_text_whole p), atoi-decimal (htons p))

  -- An IPv6 address with a port is printed in brackets with a colon and the whole port behind them,
  -- and atoi reads the port back.
  pub sock_ntop_inet6 :
      (p salen : ℕ) (a s : Bytes)
      → htons p ≢ 0
      → inet_ntop 10 a 127 ≡ some s
      → (t : Bytes) × (sock_ntop (inet6 p a) salen ≡ some (b'[' ∷ (s ++ b']' ∷ b':' ∷ t)))
        × (atoi t ≡ htons p)
  unfolding sock_ntop
  sock_ntop_inet6 p salen a s port e =
      let ported : (htons p == 0) ≡ false = ground arith in
      (decimal (htons p), rw (e, ported, bracket_text_whole p), atoi-decimal (htons p))
