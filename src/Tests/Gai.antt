-- ===== src/Tests/Gai.antt =====
-- getaddrinfo and its parts at concrete inputs.
use cpplearn.Common.{
  ℕ, ◌+◌, ◌≡◌, ◌↔◌, refl, true, false, ◌&&◌, none, some, List, [], ◌∷◌, codes, length, str_equal,
  if◌then◌else◌, ◌==◌, ltb, All,
}
use cpplearn.Common.Decimal.{atoi}
use cpplearn.Gai.Defs.{af_unspec, af_inet, af_local, ai_clone, AddrInfo, inet, World}
use cpplearn.Gai.Eai
use cpplearn.Gai.Check.{ga_echeck}
use cpplearn.Gai.Search.{ga_nsearch}
use cpplearn.Gai.Struct.{ga_aistruct, fill_addr, attach_addr, ga_clone}
use cpplearn.Gai.Port.{ga_port, IsFresh, visit}
use cpplearn.Gai.Serv.{
  ga_serv, freeaddrinfo, Services, serve_all, serve_number, serve, counted, start,
}
use cpplearn.Gai.Lookup.{
  host_found, no_host, Resolver, search_all, search_one, try6, ask, use_answer, save_canon,
  add_addrs, use_numeric, numeric_or, add_addr, after_struct,
}
use cpplearn.Gai.Call.{
  Outcome, ok, failed, quit, getaddrinfo, is_unix, internet_steps, run_search, finish, return_canon,
  give_canon, some_found, serve_service,
}
use cpplearn.Gai.Call.Quit.{getaddrinfo-eq-quit_iff}
use cpplearn.Gai.Leaks.Whole.{MemoryKept, getaddrinfo_memory}

abbrev pub ample : World
ample = record { grants = λ n. true; asked = 0; live = 5; unlinked = [] }

-- Memory runs out at the second request.
abbrev scarce : World
scarce = record { grants = λ n. ltb n 1; asked = 0; live = 5; unlinked = [] }

abbrev hints_of : ℕ → ℕ → ℕ → AddrInfo
hints_of flags family socktype = record {
  ai_flags = flags;
  ai_family = family;
  ai_socktype = socktype;
  ai_protocol = 0;
  ai_addrlen = 0;
  ai_canonname = none;
  ai_addr = none;
}

abbrev fresh_entry : ℕ → AddrInfo
fresh_entry d = record {
  ai_flags = ai_clone;
  ai_family = af_inet;
  ai_socktype = 0;
  ai_protocol = 0;
  ai_addrlen = 16;
  ai_canonname = none;
  ai_addr = some (inet 0 (10 ∷ 0 ∷ 0 ∷ d ∷ []));
}

abbrev two_entries : List AddrInfo
two_entries = fresh_entry 1 ∷ fresh_entry 2 ∷ []

abbrev no_services : Services
no_services name protocol = none

abbrev pub network : Resolver
network = record {
  inet_pton = λ family s.
      if str_equal s (codes "10.0.0.1") && family == af_inet
      then some (10 ∷ 0 ∷ 0 ∷ 1 ∷ [])
      else none;
  gethostbyname2 = λ s family.
      if str_equal s (codes "pi") && family == af_inet
      then host_found (codes "pi.lan") af_inet ((10 ∷ 0 ∷ 0 ∷ 7 ∷ []) ∷ (10 ∷ 0 ∷ 0 ∷ 8 ∷ []) ∷ [])
      else no_host 1;
  gethostbyname = λ inet6 s. no_host 2;
  getservbyname = no_services;
  nodename = some (codes "pi");
}

abbrev count_result : Outcome → ℕ
count_result quit = 100
count_result (ok list w) = length list
count_result (failed e w) = 200 + e

-- Two addresses and both socket types give four entries.
four_entries :
    count_result (getaddrinfo network (some (codes "pi")) (some (codes "80")) none ample) ≡ 4
unfolding getaddrinfo ga_echeck ga_nsearch run_search internet_steps search_all search_one try6 ask
    use_answer save_canon add_addrs numeric_or use_numeric add_addr after_struct ga_aistruct
    fill_addr attach_addr some_found return_canon give_canon serve_service ga_serv serve_all
    serve_number serve counted start ga_port visit ga_clone finish freeaddrinfo atoi
four_entries = refl

-- The canonical name that was saved is lost when memory runs out behind it.
canon_leak :
    getaddrinfo network (some (codes "pi")) none (some (hints_of 2 af_unspec 1)) scarce
    ≡ failed Eai.memory (record { grants = λ n. ltb n 1; asked = 2; live = 6; unlinked = [] })
unfolding getaddrinfo ga_echeck ga_nsearch run_search internet_steps search_all search_one try6 ask
    use_answer save_canon add_addrs numeric_or use_numeric add_addr after_struct ga_aistruct
    fill_addr attach_addr some_found return_canon give_canon serve_service finish freeaddrinfo
canon_leak = refl

numeric_port : atoi (codes "8080x") ≡ 8080
unfolding atoi
numeric_port = refl

two-IsFresh : All IsFresh two_entries
two-IsFresh = (
  record { cloning = refl; no_type = refl; internet = refl },
  (record { cloning = refl; no_type = refl; internet = refl }, tt),
)

getaddrinfo_memory_example :
    MemoryKept true 5
      (getaddrinfo network (some (codes "pi")) none (some (hints_of 2 af_unspec 1)) scarce)
getaddrinfo_memory_example =
    getaddrinfo_memory network (some (codes "pi")) none (some (hints_of 2 af_unspec 1)) scarce refl

getaddrinfo-eq-quit_iff_example :
    (getaddrinfo network (some (codes "pi")) none (some (hints_of 0 af_local 0)) ample ≡ quit) ↔ (
      (ga_echeck (some (codes "pi")) none 0 af_local 0 0 ≡ 0)
      × (is_unix (some (codes "pi")) none ≡ false)
      × (af_local ≡ af_local))
getaddrinfo-eq-quit_iff_example =
    getaddrinfo-eq-quit_iff network (some (codes "pi")) none (hints_of 0 af_local 0) ample
