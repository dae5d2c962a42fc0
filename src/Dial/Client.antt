-- ===== src/Dial/Client.antt =====
-- unp/unpv13e/lib/udp_client.c and host_serv.c: a datagram socket with a copy of the server's address, and
-- the list for a host and a service.
use cpplearn.Common.{
  ℕ, ◌+◌, ◌≡◌, ◌⊎◌, inl, inr, refl, ap, ◌∙◌, Bool, false, Option, none, some, List, ◌∷◌, Bytes,
  if◌then◌else◌, arith, Bool-cases,
}
use cpplearn.Gai.Defs.{ai_canonname, sock_dgram, AddrInfo, World, allocate, total_blocks}
use cpplearn.Gai.Serv.{freeaddrinfo_blocks}
use cpplearn.Gai.Lookup.{Resolver}
use cpplearn.Gai.Call.{Outcome, quit, ok, failed, getaddrinfo, is_unix}
use cpplearn.Gai.Leaks.{wants_canon}
use cpplearn.Gai.Leaks.Whole.{MemoryKept, getaddrinfo_memory}
use cpplearn.Dial.{
  Attempt, no_socket, served, Process, Dialled, dialled, exits, dial_each, free_result, hints_for,
}
use cpplearn.Dial.Kept.{Each, dial_each-Each}

-- `socket` alone is tried for an entry.
abbrev pub socket_only : Option ℕ → Attempt
socket_only none = no_socket
socket_only (some fd) = served fd

-- `*saptr = Malloc(res->ai_addrlen)`, which ends the process without memory; the copy is that of the entry.
unfoldable pub keep_address : Dialled → Dialled
keep_address exits = exits
keep_address (dialled fd ai p) =
    if (allocate p.world).0
    then dialled fd ai (record p { world = (allocate p.world).1 })
    else exits

module _ (sockets : AddrInfo → Option ℕ) where
  unfoldable pub udp_client_outcome : List ℕ → Outcome → Dialled
  unfolding keep_address
  udp_client_outcome fds quit = exits
  udp_client_outcome fds (failed e w) = exits
  udp_client_outcome fds (ok list w) =
      free_result (λ ai. socket_only (sockets ai)) list
        (keep_address
          (dial_each (λ ai. socket_only (sockets ai)) list (record { open_fds = fds; world = w })))

  unfoldable pub udp_client : Resolver → Bytes → Bytes → Process → Dialled
  unfolding udp_client_outcome
  udp_client r host serv p =
      udp_client_outcome p.open_fds
        (getaddrinfo r (some host) (some serv) (some (hints_for 0 sock_dgram)) p.world)

-- The list, a null pointer, or the end of the process inside getaddrinfo.
pub data HostServ : Type 0 where
  found : List AddrInfo → World → HostServ
  null : World → HostServ
  ended : HostServ

abbrev pub host_serv_outcome : Outcome → HostServ
host_serv_outcome quit = ended
host_serv_outcome (failed e w) = null w
host_serv_outcome (ok list w) = found list w

unfoldable pub host_serv :
    Resolver → Option Bytes → Option Bytes → (family socktype : ℕ) → World → HostServ
host_serv r host serv family socktype w = host_serv_outcome (
    getaddrinfo r host serv (some (record (hints_for ai_canonname socktype) { ai_family = family }))
      w)

-- One descriptor more is open, and one block more is in use: the copy of the address.
abbrev pub OneCopy : Process → Dialled → Type 0
OneCopy p exits = Unit
OneCopy p (dialled fd ai p') = (p'.open_fds ≡ fd ∷ p.open_fds) × (p'.world.live ≡ p.world.live + 1)

module _ (attempt : AddrInfo → Attempt) (list : List AddrInfo) (base p : Process)
    (same_fds : p.open_fds ≡ base.open_fds)
    (taken : p.world.live ≡ base.world.live + total_blocks list) where
  keep_address-OneCopy :
      (d : Dialled)
      → Each attempt list p d
      → OneCopy base (free_result attempt list (keep_address d))
  unfolding keep_address free_result
  keep_address-OneCopy exits h = tt
  keep_address-OneCopy (dialled fd ai p') h = elim (Bool-cases (p'.world.grants p'.world.asked)) [
    | inr refused ↦ rw refused tt
    | inl granted ↦
        let live : p'.world.live ≡ p.world.live = ap (λ (w : World). w.live) h.2 in
        let after : World = record p'.world {
          asked = p'.world.asked + 1;
          live = p'.world.live + 1;
        } in
        rw granted (
          h.1 ∙ ap (λ fds. fd ∷ fds) same_fds,
          omega (arith, freeaddrinfo_blocks list after (omega (arith, live, taken)), live, taken),
        )
  ]

udp_client_outcome-OneCopy :
    (sockets : AddrInfo → Option ℕ) (p : Process) (asked : Bool) (o : Outcome)
    → MemoryKept asked p.world.live o
    → OneCopy p (udp_client_outcome sockets p.open_fds o)
unfolding udp_client_outcome
udp_client_outcome-OneCopy sockets p asked quit h = tt
udp_client_outcome-OneCopy sockets p asked (failed e w) h = tt
udp_client_outcome-OneCopy sockets p asked (ok list w) h =
    let attempt : AddrInfo → Attempt = λ ai. socket_only (sockets ai) in
    let start : Process = record { open_fds = p.open_fds; world = w } in
    keep_address-OneCopy attempt list p start refl h (dial_each attempt list start)
      (dial_each-Each attempt list start)

-- udp_client for a host of the Internet: if it returns, exactly the descriptor that it returns has been
-- opened, and exactly the copy of the address is in memory; the list of addresses has been freed.
pub udp_client-OneCopy :
    (sockets : AddrInfo → Option ℕ) (r : Resolver) (host serv : Bytes) (p : Process)
    → is_unix (some host) (some serv) ≡ false
    → OneCopy p (udp_client sockets r host serv p)
unfolding udp_client
udp_client-OneCopy sockets r host serv p internet =
    udp_client_outcome-OneCopy sockets p (wants_canon (some host) (hints_for 0 sock_dgram)) _ (
      getaddrinfo_memory r (some host) (some serv) (some (hints_for 0 sock_dgram)) p.world internet)

-- A list has its blocks, and a null pointer leaves none, but for the saved canonical name.
abbrev pub HostKept : ℕ → HostServ → Type 0
HostKept base ended = Unit
HostKept base (found list w) = w.live ≡ base + total_blocks list
HostKept base (null w) = (w.live ≡ base) ⊎ (w.live ≡ base + 1)

host_serv_outcome-HostKept :
    (base : ℕ) (asked : Bool) (o : Outcome)
    → MemoryKept asked base o
    → HostKept base (host_serv_outcome o)
host_serv_outcome-HostKept base asked quit h = tt
host_serv_outcome-HostKept base asked (ok list w) h = h
host_serv_outcome-HostKept base asked (failed e w) (inl same) = inl same
host_serv_outcome-HostKept base asked (failed e w) (inr more) = inr more.0

-- What host_serv leaves in memory, for a host and a service that are not of the Unix domain.
pub host_serv-HostKept :
    (r : Resolver) (host serv : Option Bytes) (family socktype : ℕ) (w : World)
    → is_unix host serv ≡ false
    → HostKept w.live (host_serv r host serv family socktype w)
unfolding host_serv
host_serv-HostKept r host serv family socktype w internet =
    let hints : AddrInfo = record (hints_for ai_canonname socktype) { ai_family = family } in
    host_serv_outcome-HostKept w.live (wants_canon host hints) _
      (getaddrinfo_memory r host serv (some hints) w internet)
