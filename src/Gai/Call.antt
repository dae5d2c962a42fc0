-- ===== src/Gai/Call.antt =====
-- unp/unpv13e/libgai/getaddrinfo.c: the whole call, from the checks of its arguments to its result.
pub mod Quit
use cpplearn.Common.{
  ℕ, Bool, false, not, ◌&&◌, ◌||◌, Option, none, some, List, [], ◌∷◌, Bytes, codes, length, get_or,
  str_equal, if◌then◌else◌, ◌==◌, has_flag,
}
use cpplearn.Gai.Defs.{
  af_unspec, af_inet, af_inet6, ai_canonname, AddrInfo, Search, World, allocate, total_blocks,
  count_opt, is_blank,
}
use cpplearn.Gai.Eai
use cpplearn.Gai.Check.{ga_echeck}
use cpplearn.Gai.Search.{ga_nsearch}
use cpplearn.Gai.Struct.{Built}
use cpplearn.Gai.Serv.{ga_serv, freeaddrinfo}
use cpplearn.Gai.Unix.{set_canon, ga_unix}
use cpplearn.Gai.Lookup.{Resolver, Progress, Next, go, bad, ◌>>=◌, search_all}

-- `quit` is the end of the process by err_quit; `ok` sets `*result`; `failed` is any other return.
pub data Outcome : Type 0 where
  quit : Outcome
  ok : List AddrInfo → World → Outcome
  failed : ℕ → World → Outcome

-- `hints` all zero, with AF_UNSPEC, where none are given.
abbrev pub default_hints : AddrInfo
default_hints = record {
  ai_flags = 0;
  ai_family = af_unspec;
  ai_socktype = 0;
  ai_protocol = 0;
  ai_addrlen = 0;
  ai_canonname = none;
  ai_addr = none;
}

-- The host "/local" or "/unix" with an absolute path for a service.
abbrev pub is_unix : Option Bytes → Option Bytes → Bool
is_unix (some host) (some serv) =
    (str_equal host (codes "/local") || str_equal host (codes "/unix")) && get_or serv 0 0 == b'/'
is_unix _ _ = false

-- `if (aihead == NULL) error(EAI_NONAME)`
unfoldable pub some_found : Progress → Next
some_found p = if length p.list == 0 then bad Eai.noname p else go p

abbrev pub first_host : List Search → Bytes
first_host [] = []
first_host (s ∷ rest) = s.host

-- The canonical name is the saved one, which the list owns from here on, or a copy of the host.
unfoldable pub give_canon : Bytes → Option Bytes → Progress → Next
give_canon host (some name) p = go (record p { list = set_canon name p.list; canon = none })
give_canon host none p =
    let (granted, w) = allocate p.world in
    if granted
    then go (record p { list = set_canon host p.list; world = w })
    else bad Eai.memory (record p { world = w })

unfoldable pub return_canon : Option Bytes → AddrInfo → List Search → Progress → Next
return_canon hostname hints search p =
    if not (is_blank hostname) && has_flag hints.ai_flags ai_canonname
    then give_canon (first_host search) p.canon p
    else go p

module _ (r : Resolver) where
  unfoldable pub serve_service : Option Bytes → AddrInfo → Progress → Next
  serve_service none hints p = go p
  serve_service (some []) hints p = go p
  serve_service (some (c ∷ s)) hints p =
      let (rc, done) = ga_serv r.getservbyname p.list p.world hints (c ∷ s) in
      let p' : Progress = record p { list = done.list; world = done.world } in
      if rc == 0 then go p' else bad rc p'

  -- From the search to the service, for the Internet families.
  unfoldable pub internet_steps :
      Option Bytes → Option Bytes → AddrInfo → List Search → Progress → Next
  internet_steps hostname servname hints search p =
      ((search_all r hostname hints (length search == 2) search p >>= some_found)
        >>= return_canon hostname hints search)
      >>= serve_service servname hints

-- `*result = aihead; return(0);`, or the label `bad`.
unfoldable pub finish : Next → Outcome
finish (go p) = ok p.list p.world
finish (bad e p) = failed e (freeaddrinfo p.list p.world)

abbrev pub given_hints : Option AddrInfo → AddrInfo
given_hints none = default_hints
given_hints (some h) = h

abbrev pub text_or_empty : Option Bytes → Bytes
text_or_empty none = []
text_or_empty (some s) = s

abbrev pub unix_outcome : Built → Outcome
unix_outcome b = if b.rc == 0 then ok b.list b.world else failed b.rc b.world

module _ (r : Resolver) where
  unfoldable pub run_search :
      Option Bytes → Option Bytes → AddrInfo → World → Option (List Search) → Outcome
  run_search hostname servname hints w none = quit
  run_search hostname servname hints w (some search) = finish (
      internet_steps r hostname servname hints search
        (record { list = []; world = w; canon = none }))

  unfoldable pub getaddrinfo : Option Bytes → Option Bytes → Option AddrInfo → World → Outcome
  getaddrinfo hostname servname hintsp w =
      let hints = given_hints hintsp in
      let rc =
        ga_echeck hostname servname hints.ai_flags hints.ai_family hints.ai_socktype
          hints.ai_protocol in
      if not (rc == 0)
      then failed rc (freeaddrinfo [] w)
      else if is_unix hostname servname
      then unix_outcome (ga_unix r.nodename (text_or_empty servname) hints w)
      else run_search hostname servname hints w (ga_nsearch hostname hints)
