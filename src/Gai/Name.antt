-- ===== src/Gai/Name.antt =====
-- unp/unpv13e/libgai/getnameinfo.c and gn_ipv46.c: from a socket address back to the text of host
-- and service. inet_ntop and the look-ups by address and by port are parameters.
pub mod Fits
use cpplearn.Common.{ℕ, Option, none, some, [], ◌∷◌, Bytes, codes, if◌then◌else◌, ◌==◌, has_flag}
use cpplearn.Common.Decimal.{htons, decimal, snprintf}
use cpplearn.Gai.Defs.{af_inet, af_inet6}
use cpplearn.Sock.{Address, inet, inet6, unix, other}

abbrev pub ni_nofqdn : ℕ
ni_nofqdn = 1

abbrev pub ni_numerichost : ℕ
ni_numerichost = 2

abbrev pub ni_namereqd : ℕ
ni_namereqd = 4

abbrev pub ni_numericserv : ℕ
ni_numericserv = 8

abbrev pub ni_dgram : ℕ
ni_dgram = 16

-- `inet_ntop` is the text of an address if it fits a buffer of the size; the others give h_name and
-- s_name, if the look-up finds one. The text of a protocol is absent for NULL.
pub record Names : Type 0 where
  pub inet_ntop : ℕ → Bytes → ℕ → Option Bytes
  pub gethostbyaddr : Bytes → ℕ → Option Bytes
  pub getservbyport : ℕ → Option Bytes → Option Bytes

-- The value 0 and what the two buffers hold, `none` where nothing was written; or the value 1.
pub data NameResult : Type 0 where
  named : Option Bytes → Option Bytes → NameResult
  unnamed : NameResult

-- The text up to the first dot.
unfoldable pub before_dot : Bytes → Bytes
before_dot [] = []
before_dot (c ∷ rest) = let more = before_dot rest in if c == b'.' then [] else c ∷ more

abbrev pub short_name : ℕ → Bytes → Bytes
short_name flags name = if has_flag flags ni_nofqdn then before_dot name else name

-- A text of the host that may be missing, and then the service.
abbrev pub with_serv : Option Bytes → Option Bytes → NameResult
with_serv none serv = unnamed
with_serv (some host) serv = named (some host) serv

module _ (names : Names) where
  -- What the look-up of an address found.
  unfoldable pub host_name : ℕ → ℕ → Bytes → ℕ → Option Bytes → Option Bytes
  host_name hostlen flags addr family (some name) = some (snprintf hostlen (short_name flags name))
  host_name hostlen flags addr family none =
      if has_flag flags ni_namereqd then none else names.inet_ntop family addr hostlen

  unfoldable pub host_text : ℕ → Bytes → ℕ → ℕ → Option Bytes
  unfolding host_name
  host_text hostlen addr family flags =
      if has_flag flags ni_numerichost
      then names.inet_ntop family addr hostlen
      else host_name hostlen flags addr family (names.gethostbyaddr addr family)

  abbrev pub serv_name : ℕ → ℕ → Option Bytes → Bytes
  serv_name servlen port (some name) = snprintf servlen name
  serv_name servlen port none = snprintf servlen (decimal (htons port))

  -- Nothing is written to a buffer of no bytes.
  unfoldable pub serv_text : ℕ → ℕ → ℕ → Option Bytes
  serv_text servlen port flags =
      if servlen == 0
      then none
      else some (
          if has_flag flags ni_numericserv
          then snprintf servlen (decimal (htons port))
          else serv_name servlen port (
              names.getservbyport port
                (if has_flag flags ni_dgram then some (codes "udp") else none)))

  unfoldable pub gn_ipv46 : ℕ → ℕ → Bytes → ℕ → ℕ → ℕ → NameResult
  unfolding host_text serv_text
  gn_ipv46 hostlen servlen addr family port flags =
      if hostlen == 0
      then named none (serv_text servlen port flags)
      else with_serv (host_text hostlen addr family flags) (serv_text servlen port flags)

  abbrev pub written : ℕ → Bytes → Option Bytes
  written size text = if size == 0 then none else some (snprintf size text)

  unfoldable pub getnameinfo : Address → ℕ → ℕ → ℕ → NameResult
  unfolding gn_ipv46
  getnameinfo (inet port addr) hostlen servlen flags =
      gn_ipv46 hostlen servlen addr af_inet port flags
  getnameinfo (inet6 port addr) hostlen servlen flags =
      gn_ipv46 hostlen servlen addr af_inet6 port flags
  getnameinfo (unix path) hostlen servlen flags =
      named (written hostlen (codes "/local")) (written servlen path)
  getnameinfo (other family) hostlen servlen flags = unnamed
