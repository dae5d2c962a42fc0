-- ===== src/Gai/Call/Quit.antt =====
-- unp/unpv13e/libgai/getaddrinfo.c: when a call ends the process.
use cpplearn.Common.{◌≡◌, ◌≢◌, ◌↔◌, refl, false, Option, none, some, List, Bytes, arith}
use cpplearn.Gai.Defs.{af_local, AddrInfo, Search, World}
use cpplearn.Gai.Check.{ga_echeck, ga_echeck_iff}
use cpplearn.Gai.Search.{ga_nsearch, ga_nsearch-eq-none_iff}
use cpplearn.Gai.Lookup.{Resolver, Next, go, bad}
use cpplearn.Gai.Call.{quit, is_unix, finish, run_search, getaddrinfo}

finish-ne-quit : (n : Next) → finish n ≢ quit
unfolding finish
finish-ne-quit (go p) e = cc
finish-ne-quit (bad code p) e = cc

run_search-eq-quit :
    (r : Resolver) (hostname servname : Option Bytes) (hints : AddrInfo) (w : World)
    (search : Option (List Search))
    → (run_search r hostname servname hints w search ≡ quit) ↔ (search ≡ none)
unfolding run_search
run_search-eq-quit r hostname servname hints w none = (λ e. refl, λ e. refl)
run_search-eq-quit r hostname servname hints w (some search) =
    (λ e. absurd (finish-ne-quit _ e), λ e. cc)

-- A call ends the process exactly when its arguments pass all checks, the host is no name of the
-- Unix domain with a path, and the family asked for is AF_LOCAL.
pub getaddrinfo-eq-quit_iff :
    (r : Resolver) (hostname servname : Option Bytes) (hints : AddrInfo) (w : World)
    → (getaddrinfo r hostname servname (some hints) w ≡ quit) ↔ (
        (ga_echeck hostname servname hints.ai_flags hints.ai_family hints.ai_socktype
            hints.ai_protocol
          ≡ 0)
        × (is_unix hostname servname ≡ false)
        × (hints.ai_family ≡ af_local))
unfolding getaddrinfo
getaddrinfo-eq-quit_iff r hostname servname hints w = ground (
  arith,
  run_search-eq-quit r hostname servname hints w (ga_nsearch hostname hints),
  ga_nsearch-eq-none_iff hostname hints,
  ga_echeck_iff hostname servname hints.ai_flags hints.ai_family hints.ai_socktype
      hints.ai_protocol,
)
