-- ===== src/Gai/Port.antt =====
-- unp/unpv13e/libgai/ga_port.c: a port is put into the entries of a socket type, which are cloned
-- where they serve another type already.
use cpplearn.Common.{
  ℕ, ◌+◌, ◌%◌, ◌^◌, ◌≡◌, refl, Bool, true, false, ◌||◌, Option, none, some, List, [], ◌∷◌, ◌++◌,
  map, flat_map, length, if◌then◌else◌, ◌==◌, has_flag, All, arith,
}
use cpplearn.Gai.Defs.{
  af_inet, af_inet6, ai_clone, sock_stream, sock_dgram, AddrInfo, SockAddr, inet, inet6, unix,
  blank, World, blocks, count_opt, total_blocks,
}
use cpplearn.Gai.Struct.{Cloned, ga_clone, full_copy, total_blocks-append}

-- The assignment to `sin_port`, of sixteen bits.
abbrev pub with_port : ℕ → Option SockAddr → Option SockAddr
with_port port none = none
with_port port (some (inet p a)) = some (inet (port % 2 ^ 16) a)
with_port port (some (inet6 p a)) = some (inet6 (port % 2 ^ 16) a)
with_port port (some (unix path)) = some (unix path)
with_port port (some blank) = some blank

abbrev pub is_internet : ℕ → Bool
is_internet family = family == af_inet || family == af_inet6

-- The end of the loop's body: the socket type is set, and the port of an Internet address.
abbrev pub assign : AddrInfo → ℕ → ℕ → AddrInfo
assign ai port socktype = record ai {
  ai_socktype = socktype;
  ai_addr = if is_internet ai.ai_family then with_port port ai.ai_addr else ai.ai_addr;
}

abbrev pub found : AddrInfo → ℕ
found ai = if is_internet ai.ai_family then 1 else 0

-- What one round of the loop does: whether it goes on, what it adds to `nfound`, and the entries
-- that stand in place of the one visited.
pub record Visit : Type 0 where
  pub go_on : Bool
  pub count : ℕ
  pub nodes : List AddrInfo
  pub world : World

visit_clone : AddrInfo → ℕ → ℕ → Cloned → Visit
visit_clone ai port socktype c = elim c.new [
  | none ↦ record { go_on = false; count = 0; nodes = ai ∷ c.linked; world = c.world }
  | some new ↦ record {
    go_on = true;
    count = found new;
    nodes = ai ∷ assign new port socktype ∷ [];
    world = c.world;
  }
]

unfoldable pub visit : AddrInfo → ℕ → ℕ → World → Visit
unfolding visit_clone
visit ai port socktype w =
    let here : Visit = record {
      go_on = true;
      count = found ai;
      nodes = assign ai port socktype ∷ [];
      world = w;
    } in
    if has_flag ai.ai_flags ai_clone
    then if ai.ai_socktype == 0 then here else visit_clone ai port socktype (ga_clone ai w)
    else if ai.ai_socktype == socktype
    then here
    else record { go_on = true; count = 0; nodes = ai ∷ []; world = w }

-- `none` is the return of -1.
pub record Ported : Type 0 where
  pub nfound : Option ℕ
  pub list : List AddrInfo
  pub world : World

port_loop : List AddrInfo → ℕ → ℕ → ℕ → World → Ported
port_loop [] port socktype nfound w = record { nfound = some nfound; list = []; world = w }
port_loop (ai ∷ rest) port socktype nfound w =
    let v = visit ai port socktype w in
    elim v.go_on [
      | true ↦
          let r = port_loop rest port socktype (nfound + v.count) v.world in
          record r { list = v.nodes ++ r.list }
      | false ↦ record { nfound = none; list = v.nodes ++ rest; world = v.world }
    ]

unfoldable pub ga_port : List AddrInfo → ℕ → ℕ → World → Ported
unfolding port_loop
ga_port ais port socktype w = port_loop ais port socktype 0 w

count_opt-with_port :
    (port : ℕ) (addr : Option SockAddr) → count_opt (with_port port addr) ≡ count_opt addr
count_opt-with_port port none = refl
count_opt-with_port port (some (inet p a)) = refl
count_opt-with_port port (some _) = refl

blocks-assign : (ai : AddrInfo) (port socktype : ℕ) → blocks (assign ai port socktype) ≡ blocks ai
blocks-assign ai port socktype = ground (arith, count_opt-with_port port ai.ai_addr)

visit-blocks :
    (ai : AddrInfo) (port socktype : ℕ) (w : World)
    → (visit ai port socktype w).world.live + blocks ai
      ≡ w.live + total_blocks (visit ai port socktype w).nodes
unfolding visit ga_clone
visit-blocks ai port socktype w =
    ground (arith, blocks-assign ai port socktype, blocks-assign (full_copy ai) port socktype)

port_loop_blocks :
    (ais : List AddrInfo) (port socktype nfound : ℕ) (w : World)
    → (port_loop ais port socktype nfound w).world.live + total_blocks ais
      ≡ w.live + total_blocks (port_loop ais port socktype nfound w).list
unfolding port_loop
port_loop_blocks [] port socktype nfound w = refl
port_loop_blocks (ai ∷ rest) port socktype nfound w =
    let v = visit ai port socktype w in
    let r = port_loop rest port socktype (nfound + v.count) v.world in
    ground (
      arith,
      visit-blocks ai port socktype w,
      total_blocks-append v.nodes rest,
      total_blocks-append v.nodes r.list,
      port_loop_blocks rest port socktype (nfound + v.count) v.world,
    )

-- Whether or not memory runs out, every block that ga_port has taken is in the list that it leaves.
pub ga_port_blocks :
    (ais : List AddrInfo) (port socktype : ℕ) (w : World)
    → (ga_port ais port socktype w).world.live + total_blocks ais
      ≡ w.live + total_blocks (ga_port ais port socktype w).list
unfolding ga_port
ga_port_blocks ais port socktype w = port_loop_blocks ais port socktype 0 w

-- An entry of getaddrinfo's first phase for an Internet address, when no socket type is asked for.
pub record IsFresh (ai : AddrInfo) : Type 0 where
  pub cloning : ai.ai_flags ≡ ai_clone
  pub no_type : ai.ai_socktype ≡ 0
  pub internet : is_internet ai.ai_family ≡ true

-- The entry for one socket type, and behind it a copy for the other.
abbrev pub both_types : ℕ → ℕ → AddrInfo → List AddrInfo
both_types p q ai =
    let first = assign ai p sock_stream in first ∷ assign (full_copy first) q sock_dgram ∷ []

abbrev pub first_type : ℕ → AddrInfo → AddrInfo
first_type p ai = assign ai p sock_stream

module _ (p q : ℕ) where
  visit-fresh :
      (ai : AddrInfo) (w : World)
      → IsFresh ai
      → visit ai p sock_stream w
        ≡ record { go_on = true; count = 1; nodes = first_type p ai ∷ []; world = w }
  unfolding visit
  visit-fresh ai w fresh = simp (fresh.cloning, fresh.no_type, fresh.internet)

  port_loop-fresh :
      (ais : List AddrInfo) (n : ℕ) (w : World)
      → All IsFresh ais
      → port_loop ais p sock_stream n w
        ≡ record { nfound = some (n + length ais); list = map (first_type p) ais; world = w }
  unfolding port_loop
  port_loop-fresh [] n w h = ground arith
  port_loop-fresh (ai ∷ rest) n w (fresh, h) =
      rw (visit-fresh ai w fresh, port_loop)
        (rw (visit-fresh ai w fresh, port_loop-fresh rest (n + 1) w h) (ground arith))

  visit-first :
      (ai : AddrInfo) (w : World)
      → IsFresh ai
      → ((k : ℕ) → w.grants k ≡ true)
      → visit (first_type p ai) q sock_dgram w ≡ record {
        go_on = true;
        count = 1;
        nodes = both_types p q ai;
        world = record w { asked = w.asked + 1 + 1; live = w.live + 1 + 1 };
      }
  unfolding visit ga_clone
  visit-first ai w fresh granted = simp (fresh.cloning, fresh.internet, granted)

  port_loop-first :
      (ais : List AddrInfo) (n : ℕ) (w : World)
      → All IsFresh ais
      → ((k : ℕ) → w.grants k ≡ true)
      → ((port_loop (map (first_type p) ais) q sock_dgram n w).nfound ≡ some (n + length ais))
        × ((port_loop (map (first_type p) ais) q sock_dgram n w).list
            ≡ flat_map (both_types p q) ais)
  unfolding port_loop flat_map
  port_loop-first [] n w h granted = ground arith
  port_loop-first (ai ∷ rest) n w (fresh, h) granted =
      let ih =
        port_loop-first rest (n + 1) (record w { asked = w.asked + 1 + 1; live = w.live + 1 + 1 }) h
          granted in
      rw (visit-first ai w fresh granted, port_loop)
        (rw (visit-first ai w fresh granted, ih.0, ih.1) (ground arith))

-- The four structures of a host with two addresses, for any number of addresses: once the stream
-- port and then the datagram port are assigned to fresh entries, each address stands in the list
-- twice, as a stream entry with the one port and behind it a datagram entry with the other; both
-- calls count every address.
pub ga_port_both :
    (p q : ℕ) (ais : List AddrInfo) (w : World)
    → All IsFresh ais
    → ((k : ℕ) → w.grants k ≡ true)
    → ((ga_port ais p sock_stream w).nfound ≡ some (length ais))
      × ((ga_port
            (ga_port ais p sock_stream w).list
            q
            sock_dgram
            (ga_port ais p sock_stream w).world).nfound
          ≡ some (length ais))
      × ((ga_port
            (ga_port ais p sock_stream w).list
            q
            sock_dgram
            (ga_port ais p sock_stream w).world).list
          ≡ flat_map (both_types p q) ais)
unfolding ga_port
ga_port_both p q ais w fresh granted =
    let again = port_loop-first p q ais 0 w fresh granted in
    rw (port_loop-fresh p q ais 0 w fresh) (ground arith, ground (arith, again.0), again.1)
