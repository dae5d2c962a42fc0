-- ===== src/Gai/Serv.antt =====
-- unp/unpv13e/libgai/ga_serv.c and freeaddrinfo.c: the service of every entry, and the end of a
-- list. The database behind getservbyname is a parameter.
use cpplearn.Common.{
  ℕ, ◌+◌, ◌≤◌, ◌≡◌, ◌≢◌, refl, Bool, true, false, not, ◌||◌, Option, none, some, List, [], ◌∷◌,
  flat_map, Bytes, codes, length, get_or, if◌then◌else◌, ◌==◌, All, arith,
}
use cpplearn.Common.Decimal.{is_digit, htons, atoi}
use cpplearn.Gai.Defs.{sock_stream, sock_dgram, AddrInfo, World, release, blocks, total_blocks}
use cpplearn.Gai.Eai
use cpplearn.Gai.Port.{Ported, ga_port, ga_port_blocks, IsFresh, both_types, ga_port_both}

-- The list, the world and `nfound`, and whether a call of ga_port has failed.
pub record Serving : Type 0 where
  pub failed : Bool
  pub list : List AddrInfo
  pub world : World
  pub nfound : ℕ

unfoldable pub counted : Serving → Ported → Serving
counted s r = elim r.nfound [
  | none ↦ record s { failed = true; list = r.list; world = r.world }
  | some n ↦ record s { list = r.list; world = r.world; nfound = s.nfound + n }
]

-- `if ((rc = ga_port(…)) < 0) return(EAI_MEMORY); nfound += rc;`
unfoldable pub serve : ℕ → ℕ → Serving → Serving
serve port socktype s = if s.failed then s else counted s (ga_port s.list port socktype s.world)

-- A service that the database does not know is passed over.
unfoldable pub serve_named : Option ℕ → ℕ → Serving → Serving
serve_named none socktype s = s
serve_named (some port) socktype s = serve port socktype s

-- The database: the port, in network byte order, of a service under a protocol.
abbrev pub Services : Type 0
Services = Bytes → Bytes → Option ℕ

-- A port number: for the socket type that is asked for, or for both.
unfoldable pub serve_number : ℕ → ℕ → Serving → Serving
serve_number port socktype s =
    if not (socktype == 0)
    then serve port socktype s
    else serve port sock_dgram (serve port sock_stream s)

-- One of the two blocks that look a name up: it is passed over for another socket type.
unfoldable pub serve_name : ℕ → Option ℕ → ℕ → Serving → Serving
serve_name asked port socktype s =
    if asked == 0 || asked == socktype then serve_named port socktype s else s

abbrev pub serv_code : AddrInfo → Serving → ℕ
serv_code hints s =
    if s.failed
    then Eai.memory
    else if s.nfound == 0
    then if hints.ai_socktype == 0 then Eai.noname else Eai.service
    else 0

unfoldable pub start : List AddrInfo → World → Serving
start ais w = record { failed = false; list = ais; world = w; nfound = 0 }

module _ (getservbyname : Services) where
  unfoldable pub serve_all : AddrInfo → Bytes → Serving → Serving
  serve_all hints serv s =
      if is_digit (get_or serv 0 0)
      then serve_number (htons (atoi serv)) hints.ai_socktype s
      else serve_name hints.ai_socktype (getservbyname serv (codes "udp")) sock_dgram
          (serve_name hints.ai_socktype (getservbyname serv (codes "tcp")) sock_stream s)

  unfoldable pub ga_serv : List AddrInfo → World → AddrInfo → Bytes → ℕ × Serving
  ga_serv ais w hints serv = let s = serve_all hints serv (start ais w) in (serv_code hints s, s)

-- Each round fetches the next entry before it frees this one.
unfoldable pub freeaddrinfo : List AddrInfo → World → World
freeaddrinfo [] w = w
freeaddrinfo (ai ∷ rest) w = freeaddrinfo rest (release (blocks ai) w)

-- Freeing a list gives back the blocks of its entries, no more and no fewer.
pub freeaddrinfo_blocks :
    (ais : List AddrInfo) (w : World)
    → total_blocks ais ≤ w.live
    → (freeaddrinfo ais w).live + total_blocks ais ≡ w.live
unfolding freeaddrinfo
freeaddrinfo_blocks [] w h = omega arith
freeaddrinfo_blocks (ai ∷ rest) w h =
    omega (arith, freeaddrinfo_blocks rest (release (blocks ai) w) (omega arith))

-- The blocks that serving has taken are those that the list has gained.
abbrev Balanced : Serving → Serving → Type 0
Balanced s t = t.world.live + total_blocks s.list ≡ s.world.live + total_blocks t.list

counted_same :
    (s : Serving) (r : Ported) → ((counted s r).world ≡ r.world) × ((counted s r).list ≡ r.list)
unfolding counted
counted_same s r = ground arith

serve_blocks : (port socktype : ℕ) (s : Serving) → Balanced s (serve port socktype s)
unfolding serve
serve_blocks port socktype s = ground (
  arith,
  counted_same s (ga_port s.list port socktype s.world),
  ga_port_blocks s.list port socktype s.world,
)

serve_named_blocks :
    (port : Option ℕ) (socktype : ℕ) (s : Serving) → Balanced s (serve_named port socktype s)
unfolding serve_named
serve_named_blocks none socktype s = refl
serve_named_blocks (some port) socktype s = serve_blocks port socktype s

serve_all_blocks :
    (db : Services) (hints : AddrInfo) (serv : Bytes) (s : Serving)
    → Balanced s (serve_all db hints serv s)
unfolding serve_all serve_number serve_name
serve_all_blocks db hints serv s =
    let port = htons (atoi serv) in
    let tcp = serve_name hints.ai_socktype (db serv (codes "tcp")) sock_stream s in
    ground (
      arith,
      serve_blocks port hints.ai_socktype s,
      serve_blocks port sock_stream s,
      serve_blocks port sock_dgram (serve port sock_stream s),
      serve_named_blocks (db serv (codes "tcp")) sock_stream s,
      serve_named_blocks (db serv (codes "udp")) sock_dgram s,
      serve_named_blocks (db serv (codes "udp")) sock_dgram tcp,
    )

-- Whatever ga_serv returns, the blocks that it has taken are in its list.
pub ga_serv_blocks :
    (db : Services) (ais : List AddrInfo) (w : World) (hints : AddrInfo) (serv : Bytes)
    → (ga_serv db ais w hints serv).1.world.live + total_blocks ais
      ≡ w.live + total_blocks (ga_serv db ais w hints serv).1.list
unfolding ga_serv start
ga_serv_blocks db ais w hints serv = serve_all_blocks db hints serv (start ais w)

serve_ok :
    (port socktype n : ℕ) (s : Serving)
    → s.failed ≡ false
    → (ga_port s.list port socktype s.world).nfound ≡ some n
    → serve port socktype s ≡ record {
      failed = false;
      list = (ga_port s.list port socktype s.world).list;
      world = (ga_port s.list port socktype s.world).world;
      nfound = s.nfound + n;
    }
unfolding serve counted
serve_ok port socktype n s fine count = ground arith

-- A port number for a host with addresses, and no socket type asked for: both socket types of every
-- address get the number in network byte order, and the call succeeds.
pub ga_serv_number :
    (db : Services) (ais : List AddrInfo) (w : World) (hints : AddrInfo) (serv : Bytes)
    → is_digit (get_or serv 0 0) ≡ true
    → hints.ai_socktype ≡ 0
    → All IsFresh ais
    → ais ≢ []
    → ((k : ℕ) → w.grants k ≡ true)
    → ((ga_serv db ais w hints serv).0 ≡ 0)
      × ((ga_serv db ais w hints serv).1.list
          ≡ flat_map (both_types (htons (atoi serv)) (htons (atoi serv))) ais)
unfolding ga_serv serve_all serve_number start
ga_serv_number db [] w hints serv digit untyped fresh full granted = absurd (full refl)
ga_serv_number db (ai ∷ rest) w hints serv digit untyped fresh full granted =
    let port = htons (atoi serv) in
    let both = ga_port_both port port (ai ∷ rest) w fresh granted in
    let mid : Serving = record {
      failed = false;
      list = (ga_port (ai ∷ rest) port sock_stream w).list;
      world = (ga_port (ai ∷ rest) port sock_stream w).world;
      nfound = 0 + length (ai ∷ rest);
    } in
    let first = serve_ok port sock_stream (length (ai ∷ rest)) (start (ai ∷ rest) w) refl both.0 in
    let second = serve_ok port sock_dgram (length (ai ∷ rest)) mid refl both.1 in
    simp (digit, untyped, first) (rw (second, both.2) (ground arith, refl))
