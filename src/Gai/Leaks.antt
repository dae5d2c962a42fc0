-- ===== src/Gai/Leaks.antt =====
-- unp/unpv13e/libgai/getaddrinfo.c: what the search for addresses does with memory.
pub mod Whole
use cpplearn.Common.{
  ℕ, ◌+◌, ◌≡◌, ◌⊎◌, Bool, true, not, ◌&&◌, Option, none, some, List, [], ◌∷◌, ◌++◌, Bytes, has_flag,
  arith,
}
use cpplearn.Gai.Defs.{
  ai_canonname, af_inet, af_inet6, AddrInfo, Search, World, allocate, total_blocks, blocks,
  count_opt, is_blank,
}
use cpplearn.Gai.Eai
use cpplearn.Gai.Struct.{
  Built, ga_aistruct, fill_addr, attach_addr, ga_aistruct_blocks, total_blocks-append,
}
use cpplearn.Gai.Serv.{ga_serv, freeaddrinfo, ga_serv_blocks, freeaddrinfo_blocks}
use cpplearn.Gai.Unix.{set_canon}
use cpplearn.Gai.Lookup.{
  HostAnswer, host_found, no_host, Resolver, Progress, Next, go, bad, ◌>>=◌, after_struct, add_addr,
  use_numeric, numeric_or, save_canon, add_addrs, use_answer, try6, search_one, search_all, ask,
}
use cpplearn.Gai.Call.{
  Outcome, quit, ok, failed, is_unix, some_found, return_canon, give_canon, serve_service,
  internet_steps, finish, run_search, getaddrinfo,
}

-- Since the call began with `base` blocks in use, exactly the list's blocks and the saved name have
-- been added, and a name is saved only if it is asked for, with a host.
abbrev pub wants_canon : Option Bytes → AddrInfo → Bool
wants_canon hostname hints = not (is_blank hostname) && has_flag hints.ai_flags ai_canonname

abbrev pub NameAllowed : Bool → Option Bytes → Type 0
NameAllowed asked canon = (canon ≡ none) ⊎ (asked ≡ true)

-- The first entry has no canonical name yet.
abbrev pub HeadPlain : List AddrInfo → Type 0
HeadPlain [] = Unit
HeadPlain (ai ∷ rest) = ai.ai_canonname ≡ none

HeadPlain-append :
    (ais : List AddrInfo) (ai : AddrInfo)
    → HeadPlain ais
    → ai.ai_canonname ≡ none
    → HeadPlain (ais ++ ai ∷ [])
HeadPlain-append [] ai h e = e
HeadPlain-append (a ∷ ais) ai h e = h

ga_aistruct-HeadPlain :
    (ais : List AddrInfo) (w : World) (hints : AddrInfo) (addr : Bytes) (family : ℕ)
    → HeadPlain ais
    → HeadPlain (ga_aistruct ais w hints addr family).list
unfolding ga_aistruct fill_addr attach_addr
ga_aistruct-HeadPlain [] w hints addr family h = ground arith
ga_aistruct-HeadPlain (ai ∷ ais) w hints addr family h = ground arith

pub record Owned (asked : Bool) (base : ℕ) (p : Progress) : Type 0 where
  pub balance : p.world.live ≡ base + total_blocks p.list + count_opt p.canon
  pub allowed : NameAllowed asked p.canon
  pub plain : HeadPlain p.list

abbrev pub after : Next → Progress
after (go p) = p
after (bad e p) = p

abbrev pub OwnedNext : Bool → ℕ → Next → Type 0
OwnedNext asked base n = Owned asked base (after n)

module _ (hostname : Option Bytes) (hints : AddrInfo) (base : ℕ) where
  abbrev pub asked : Bool
  asked = wants_canon hostname hints

  bind-Owned :
      (m : Next) (f : Progress → Next)
      → OwnedNext asked base m
      → ((p : Progress) → Owned asked base p → OwnedNext asked base (f p))
      → OwnedNext asked base (m >>= f)
  bind-Owned (go p) f h step = step p h
  bind-Owned (bad e p) f h step = h

  add_addr-Owned :
      (family : ℕ) (addr : Bytes) (p : Progress)
      → Owned asked base p
      → OwnedNext asked base (add_addr hints family addr p)
  unfolding add_addr after_struct
  add_addr-Owned family addr p h = ground (
    arith,
    ga_aistruct_blocks p.list p.world hints addr family,
    ga_aistruct-HeadPlain p.list p.world hints addr family,
  )

  use_numeric-Owned :
      (s : Search) (family : ℕ) (addr : Bytes) (p : Progress)
      → Owned asked base p
      → OwnedNext asked base (use_numeric hints s family addr p)
  unfolding use_numeric
  use_numeric-Owned s family addr p h = ground (arith, add_addr-Owned family addr p h)

  save_canon-Owned :
      (name : Bytes) (p : Progress)
      → Owned asked base p
      → OwnedNext asked base (save_canon hostname hints name p)
  unfolding save_canon
  save_canon-Owned name p h = ground arith

  add_addrs-Owned :
      (family : ℕ) (addrs : List Bytes) (p : Progress)
      → Owned asked base p
      → OwnedNext asked base (add_addrs hints family addrs p)
  unfolding add_addrs
  add_addrs-Owned family [] p h = h
  add_addrs-Owned family (addr ∷ rest) p h =
      bind-Owned (add_addr hints family addr p) (add_addrs hints family rest)
        (add_addr-Owned family addr p h) (add_addrs-Owned family rest)

  use_answer-Owned :
      (two : Bool) (answer : HostAnswer) (p : Progress)
      → Owned asked base p
      → OwnedNext asked base (use_answer hostname hints two answer p)
  unfolding use_answer
  use_answer-Owned two (no_host e) p h = ground arith
  use_answer-Owned two (host_found name addrtype addrs) p h =
      let saved =
        bind-Owned (save_canon hostname hints name p) (add_addrs hints addrtype addrs)
          (save_canon-Owned name p h) (add_addrs-Owned addrtype addrs) in
      ground (arith, saved)

  numeric-Owned :
      (o : Option Bytes) (s : Search) (family : ℕ) (n : Next) (p : Progress)
      → Owned asked base p
      → OwnedNext asked base n
      → OwnedNext asked base (numeric_or hints s family o p n)
  unfolding numeric_or
  numeric-Owned none s family n p h hn = hn
  numeric-Owned (some addr) s family n p h hn = use_numeric-Owned s family addr p h

  module _ (r : Resolver) where
    try6-Owned :
        (two : Bool) (s : Search) (p : Progress)
        → Owned asked base p
        → OwnedNext asked base (try6 r hostname hints two s p)
    unfolding try6
    try6-Owned two s p h =
        let by_name = use_answer-Owned two (ask r two s) p h in
        ground (
          arith,
          by_name,
          numeric-Owned (r.inet_pton af_inet6 s.host) s af_inet6
              (use_answer hostname hints two (ask r two s) p) p h by_name,
        )

    search_one-Owned :
        (two : Bool) (s : Search) (p : Progress)
        → Owned asked base p
        → OwnedNext asked base (search_one r hostname hints two s p)
    unfolding search_one
    search_one-Owned two s p h =
        let other = try6-Owned two s p h in
        ground (
          arith,
          other,
          numeric-Owned (r.inet_pton af_inet s.host) s af_inet (try6 r hostname hints two s p) p h
              other,
        )

    pub search_all-Owned :
        (two : Bool) (search : List Search) (p : Progress)
        → Owned asked base p
        → OwnedNext asked base (search_all r hostname hints two search p)
    unfolding search_all
    search_all-Owned two [] p h = h
    search_all-Owned two (s ∷ rest) p h =
        bind-Owned (search_one r hostname hints two s p) (search_all r hostname hints two rest)
          (search_one-Owned two s p h) (search_all-Owned two rest)
