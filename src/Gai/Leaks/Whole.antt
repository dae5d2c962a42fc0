-- ===== src/Gai/Leaks/Whole.antt =====
-- unp/unpv13e/libgai/getaddrinfo.c: what a whole call does with memory.
use cpplearn.Common.{
  ℕ, suc, ◌+◌, ◌≡◌, ◌⊎◌, inl, inr, refl, Bool, true, false, Option, none, some, List, [], ◌∷◌,
  Bytes, length, if◌then◌else◌, ◌==◌, arith, Bool-cases,
}
use cpplearn.Gai.Defs.{AddrInfo, Search, World, total_blocks, count_opt}
use cpplearn.Gai.Check.{ga_echeck}
use cpplearn.Gai.Search.{ga_nsearch}
use cpplearn.Gai.Serv.{freeaddrinfo, ga_serv_blocks, freeaddrinfo_blocks}
use cpplearn.Gai.Unix.{set_canon}
use cpplearn.Gai.Lookup.{Resolver, Progress, Next, go, bad, ◌>>=◌, search_all}
use cpplearn.Gai.Call.{
  Outcome, quit, ok, failed, is_unix, given_hints, some_found, return_canon, give_canon,
  serve_service, first_host, internet_steps, finish, run_search, getaddrinfo,
}
use cpplearn.Gai.Leaks.{HeadPlain, NameAllowed, Owned, OwnedNext, wants_canon, search_all-Owned}

-- What holds from the canonical name on: where the code goes on, no saved name is left over.
record Held (asked : Bool) (base : ℕ) (p : Progress) : Type 0 where
  balance : p.world.live ≡ base + total_blocks p.list + count_opt p.canon
  allowed : NameAllowed asked p.canon

abbrev HeldNext : Bool → ℕ → Next → Type 0
HeldNext asked base (go p) = Held asked base p × (p.canon ≡ none)
HeldNext asked base (bad e p) = Held asked base p

-- A call that succeeds has taken the blocks of its result; one that fails has taken none, or one if
-- a canonical name was asked for.
abbrev pub MemoryKept : Bool → ℕ → Outcome → Type 0
MemoryKept asked base quit = Unit
MemoryKept asked base (ok list w) = w.live ≡ base + total_blocks list
MemoryKept asked base (failed e w) = (w.live ≡ base) ⊎ ((w.live ≡ base + 1) × (asked ≡ true))

set_canon_blocks :
    (name : Bytes) (ais : List AddrInfo)
    → (length ais == 0) ≡ false
    → HeadPlain ais
    → total_blocks (set_canon name ais) ≡ suc (total_blocks ais)
set_canon_blocks name [] full plain = absurd (ground arith)
set_canon_blocks name (ai ∷ rest) full plain = ground arith

module _ (hostname : Option Bytes) (hints : AddrInfo) (base : ℕ) where
  abbrev asked : Bool
  asked = wants_canon hostname hints

  choose :
      (b : Bool) (m n : Next)
      → (b ≡ true → HeldNext asked base m)
      → (b ≡ false → HeldNext asked base n)
      → HeldNext asked base (if b then m else n)
  choose true m n hm hn = hm refl
  choose false m n hm hn = hn refl

  give_canon_held :
      (host : Bytes) (canon : Option Bytes) (p : Progress)
      → p.canon ≡ canon
      → (length p.list == 0) ≡ false
      → Owned asked base p
      → asked ≡ true
      → HeldNext asked base (give_canon host canon p)
  unfolding give_canon
  give_canon_held host none p e full h a = ground (arith, set_canon_blocks host p.list full h.plain)
  give_canon_held host (some name) p e full h a =
      ground (arith, set_canon_blocks name p.list full h.plain)

  return_canon_held :
      (search : List Search) (p : Progress)
      → (length p.list == 0) ≡ false
      → Owned asked base p
      → HeldNext asked base (return_canon hostname hints search p)
  unfolding return_canon
  return_canon_held search p full h =
      choose asked (give_canon (first_host search) p.canon p) (go p)
        (give_canon_held (first_host search) p.canon p refl full h)
        (λ a. (record { balance = h.balance; allowed = h.allowed }, ground arith))

  some_found_held :
      (search : List Search) (n : Next)
      → OwnedNext asked base n
      → HeldNext asked base ((n >>= some_found) >>= return_canon hostname hints search)
  unfolding some_found
  some_found_held search (bad e p) h = ground arith
  some_found_held search (go p) h = elim (Bool-cases (length p.list == 0)) [
    | inl empty ↦ rw empty (ground arith)
    | inr full ↦ rw full (return_canon_held search p full h)
  ]

  serve_service_held :
      (r : Resolver) (servname : Option Bytes) (n : Next)
      → HeldNext asked base n
      → HeldNext asked base (n >>= serve_service r servname hints)
  unfolding serve_service
  serve_service_held r servname (bad e p) h = h
  serve_service_held r none (go p) h = h
  serve_service_held r (some []) (go p) h = h
  serve_service_held r (some (c ∷ s)) (go p) h =
      ground (arith, ga_serv_blocks r.getservbyname p.list p.world hints (c ∷ s))

  finish_kept : (n : Next) → HeldNext asked base n → MemoryKept asked base (finish n)
  unfolding finish
  finish_kept (go p) h = ground arith
  finish_kept (bad e p) h = ground (arith, freeaddrinfo_blocks p.list p.world)

  run_search_kept :
      (r : Resolver) (servname : Option Bytes) (w : World) (search : Option (List Search))
      → w.live ≡ base
      → MemoryKept asked base (run_search r hostname servname hints w search)
  unfolding run_search internet_steps
  run_search_kept r servname w none e = tt
  run_search_kept r servname w (some search) e =
      let start : Progress = record { list = []; world = w; canon = none } in
      let found =
        search_all-Owned hostname hints base r (length search == 2) search start
          (record { balance = ground arith; allowed = inl refl; plain = tt }) in
      let n = search_all r hostname hints (length search == 2) search start in
      finish_kept _ (
        serve_service_held r servname ((n >>= some_found) >>= return_canon hostname hints search)
          (some_found_held search n found))

-- getaddrinfo for a host of the Internet, whatever the resolver answers and wherever memory runs
-- out: success has taken exactly the blocks of the list that it returns, and an error has given
-- every block back, but for at most one, the saved canonical name, and that only where a canonical
-- name was asked for.
pub getaddrinfo_memory :
    (r : Resolver) (hostname servname : Option Bytes) (hintsp : Option AddrInfo) (w : World)
    → is_unix hostname servname ≡ false
    → MemoryKept
        (wants_canon hostname (given_hints hintsp))
        w.live
        (getaddrinfo r hostname servname hintsp w)
unfolding getaddrinfo freeaddrinfo
getaddrinfo_memory r hostname servname hintsp w internet =
    let hints = given_hints hintsp in
    let rc =
      ga_echeck hostname servname hints.ai_flags hints.ai_family hints.ai_socktype
        hints.ai_protocol in
    elim (Bool-cases (rc == 0)) [
      | inl passed ↦
          rw (passed, internet)
            (run_search_kept hostname hints w.live r servname w (ga_nsearch hostname hints) refl)
      | inr refused ↦ rw refused (inl refl)
    ]
