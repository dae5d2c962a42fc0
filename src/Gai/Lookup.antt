-- ===== src/Gai/Lookup.antt =====
-- unp/unpv13e/libgai/getaddrinfo.c. The resolver, inet_pton and uname are parameters.
use cpplearn.Common.{
  ℕ, Bool, false, not, ◌&&◌, ◌||◌, Option, none, some, List, [], ◌∷◌, Bytes, get_or, if◌then◌else◌,
  ◌==◌, leb, has_flag,
}
use cpplearn.Common.Decimal.{is_digit}
use cpplearn.Gai.Defs.{
  af_unspec, af_inet, af_inet6, ai_canonname, AddrInfo, Search, World, allocate, is_blank,
}
use cpplearn.Gai.Eai
use cpplearn.Gai.Struct.{Built, ga_aistruct}
use cpplearn.Gai.Serv.{Services}

-- What a name server query gives: h_name, h_addrtype and h_addr_list, or h_errno.
pub data HostAnswer : Type 0 where
  host_found : Bytes → ℕ → List Bytes → HostAnswer
  no_host : ℕ → HostAnswer

-- `inet_pton` gives the bytes of a numeric address of a family; `gethostbyname2` asks for one
-- family, `gethostbyname` for IPv6 addresses if its flag, RES_USE_INET6 in _res.options, is set.
pub record Resolver : Type 0 where
  pub inet_pton : ℕ → Bytes → Option Bytes
  pub gethostbyname2 : Bytes → ℕ → HostAnswer
  pub gethostbyname : Bool → Bytes → HostAnswer
  pub getservbyname : Services
  pub nodename : Option Bytes

-- The locals that the label `bad` reads: `aihead`'s list, and `canon`.
pub record Progress : Type 0 where
  pub list : List AddrInfo
  pub world : World
  pub canon : Option Bytes

-- Whether the code goes on, or jumps to `bad` with an error.
pub data Next : Type 0 where
  go : Progress → Next
  bad : ℕ → Progress → Next

infixl 5 ◌>>=◌
abbrev pub ◌>>=◌ : Next → (Progress → Next) → Next
go p >>= f = f p
bad e p >>= f = bad e p

-- `if (rc != 0) error(rc);` behind a call of ga_aistruct.
unfoldable pub after_struct : Progress → Built → Next
after_struct p b =
    let p' : Progress = record p { list = b.list; world = b.world } in
    if b.rc == 0 then go p' else bad b.rc p'

-- One address of a family for the list.
unfoldable pub add_addr : AddrInfo → ℕ → Bytes → Progress → Next
add_addr hints family addr p = after_struct p (ga_aistruct p.list p.world hints addr family)

abbrev is_xdigit : ℕ → Bool
is_xdigit c = is_digit c || (leb b'a' c && leb c b'f') || (leb b'A' c && leb c b'F')

-- `strchr(s, c) != NULL`
pub contains_byte : ℕ → Bytes → Bool
contains_byte c [] = false
contains_byte c (b ∷ s) = b == c || contains_byte c s

-- What is done with a numeric address of a family, under an entry of the search.
unfoldable pub use_numeric : AddrInfo → Search → ℕ → Bytes → Progress → Next
use_numeric hints s family addr p =
    if not (hints.ai_family == af_unspec) && not (hints.ai_family == family)
    then bad Eai.addrfamily p
    else if not (s.family == family)
    then go p
    else add_addr hints family addr p

-- A host that inet_pton takes is used as it is; another goes on to the next test.
unfoldable pub numeric_or : AddrInfo → Search → ℕ → Option Bytes → Progress → Next → Next
numeric_or hints s family (some addr) p other = use_numeric hints s family addr p
numeric_or hints s family none p other = other

-- The switch on h_errno: HOST_NOT_FOUND, TRY_AGAIN, NO_RECOVERY, NO_DATA.
abbrev pub host_error : ℕ → ℕ
host_error e =
    if e == 1
    then Eai.noname
    else if e == 2
    then Eai.again
    else if e == 3
    then Eai.fail
    else if e == 4
    then Eai.nodata
    else Eai.noname

-- `canon = strdup(hptr->h_name)`, the first time.
unfoldable pub save_canon : Option Bytes → AddrInfo → Bytes → Progress → Next
save_canon hostname hints name p =
    if not (is_blank hostname) && has_flag hints.ai_flags ai_canonname
    then elim p.canon [
      | some _ ↦ go p
      | none ↦
          let (ok, w) = allocate p.world in
          if ok
          then go (record p { world = w; canon = some name })
          else bad Eai.memory (record p { world = w })
    ]
    else go p

unfoldable pub add_addrs : AddrInfo → ℕ → List Bytes → Progress → Next
add_addrs hints family [] p = go p
add_addrs hints family (addr ∷ rest) p =
    add_addr hints family addr p >>= add_addrs hints family rest

-- The rest of the loop's body: the answer of the name server. `two` says that there are two searches.
unfoldable pub use_answer : Option Bytes → AddrInfo → Bool → HostAnswer → Progress → Next
use_answer hostname hints two (no_host e) p = if two then go p else bad (host_error e) p
use_answer hostname hints two (host_found name addrtype addrs) p =
    if not (hints.ai_family == af_unspec) && not (hints.ai_family == addrtype)
    then bad Eai.addrfamily p
    else save_canon hostname hints name p >>= add_addrs hints addrtype addrs

module _ (r : Resolver) where
  unfoldable pub ask : Bool → Search → HostAnswer
  ask two s =
      if two
      then r.gethostbyname2 s.host s.family
      else r.gethostbyname (s.family == af_inet6) s.host

  unfoldable pub try6 : Option Bytes → AddrInfo → Bool → Search → Progress → Next
  try6 hostname hints two s p =
      let by_name = use_answer hostname hints two (ask two s) p in
      if (is_xdigit (get_or s.host 0 0) || get_or s.host 0 0 == b':') && contains_byte b':' s.host
      then numeric_or hints s af_inet6 (r.inet_pton af_inet6 s.host) p by_name
      else by_name

  -- The body of the loop over the searches.
  unfoldable pub search_one : Option Bytes → AddrInfo → Bool → Search → Progress → Next
  search_one hostname hints two s p =
      let other = try6 hostname hints two s p in
      if is_digit (get_or s.host 0 0)
      then numeric_or hints s af_inet (r.inet_pton af_inet s.host) p other
      else other

  unfoldable pub search_all : Option Bytes → AddrInfo → Bool → List Search → Progress → Next
  search_all hostname hints two [] p = go p
  search_all hostname hints two (s ∷ rest) p =
      search_one hostname hints two s p >>= search_all hostname hints two rest
