-- ===== src/Gai/Check.antt =====
-- unp/unpv13e/libgai/ga_echeck.c: the checks of the arguments.
use cpplearn.Common.{
  ℕ, ◌/◌, ◌≤◌, ◌<◌, ◌≡◌, ◌≢◌, ◌⊎◌, ◌↔◌, Bool, false, not, ◌&&◌, Option, Bytes, if◌then◌else◌, ◌==◌,
  arith,
}
use cpplearn.Gai.Defs.{
  af_unspec, af_inet, af_inet6, af_local, sock_stream, sock_dgram, sock_raw, is_blank,
}
use cpplearn.Gai.Eai

-- `flags & ~(AI_PASSIVE | AI_CANONNAME)`: a bit above the lowest two.
abbrev unknown_flags : ℕ → Bool
unknown_flags flags = not (flags / 4 == 0)

check_socktype_inet : ℕ → ℕ
check_socktype_inet socktype =
    if not (socktype == 0)
      && (not (socktype == sock_stream)
          && (not (socktype == sock_dgram) && not (socktype == sock_raw)))
    then Eai.socktype
    else 0

check_socktype_local : ℕ → ℕ
check_socktype_local socktype =
    if not (socktype == 0) && (not (socktype == sock_stream) && not (socktype == sock_dgram))
    then Eai.socktype
    else 0

check_family : ℕ → ℕ → ℕ
unfolding check_socktype_inet check_socktype_local
check_family family socktype =
    if family == af_unspec
    then 0
    else if family == af_inet
    then check_socktype_inet socktype
    else if family == af_inet6
    then check_socktype_inet socktype
    else if family == af_local
    then check_socktype_local socktype
    else Eai.family

unfoldable pub ga_echeck : Option Bytes → Option Bytes → ℕ → ℕ → ℕ → ℕ → ℕ
unfolding check_family
ga_echeck hostname servname flags family socktype protocol =
    if unknown_flags flags
    then Eai.badflags
    else if is_blank hostname && is_blank servname
    then Eai.noname
    else check_family family socktype

-- The families that the library handles.
abbrev pub KnownFamily : ℕ → Type 0
KnownFamily family =
    (family ≡ af_unspec) ⊎ (family ≡ af_inet) ⊎ (family ≡ af_inet6) ⊎ (family ≡ af_local)

-- The socket types allowed with a family: any one with AF_UNSPEC, none or a known one with the
-- Internet families, and no raw sockets in the Unix domain.
abbrev pub TypeAllowed : ℕ → ℕ → Type 0
TypeAllowed family socktype =
    (family ≡ af_unspec) ⊎ (socktype ≤ 2) ⊎ ((socktype ≡ 3) × (family ≢ af_local))

check_family_iff :
    (family socktype : ℕ)
    → (check_family family socktype ≡ 0) ↔ (KnownFamily family × TypeAllowed family socktype)
unfolding check_family
check_family_iff family socktype = ground arith

-- The arguments pass exactly when no unknown flag is set, a host or a service is named, the family
-- is known and the socket type goes with it.
pub ga_echeck_iff :
    (hostname servname : Option Bytes) (flags family socktype protocol : ℕ)
    → (ga_echeck hostname servname flags family socktype protocol ≡ 0) ↔ (
        (flags < 4)
        × ((is_blank hostname && is_blank servname) ≡ false)
        × KnownFamily family
        × TypeAllowed family socktype)
unfolding ga_echeck
ga_echeck_iff hostname servname flags family socktype protocol =
    ground (arith, check_family_iff family socktype)
