-- ===== src/Dial.antt =====
-- unp/unpv13e/lib/tcp_connect.c, udp_connect.c, tcp_listen.c and udp_server.c: a
-- socket for the first address of a host and service that serves. socket, connect, bind and listen
-- are parameters.
pub mod Kept
pub mod Client
use cpplearn.Common.{ℕ, Bool, Option, none, some, List, [], ◌∷◌, Bytes, if◌then◌else◌}
use cpplearn.Gai.Defs.{af_unspec, ai_passive, sock_stream, sock_dgram, AddrInfo, World, release}
use cpplearn.Gai.Serv.{freeaddrinfo}
use cpplearn.Gai.Lookup.{Resolver}
use cpplearn.Gai.Call.{Outcome, quit, ok, failed, getaddrinfo}

-- What happens to one address: no socket, a socket for which connect or bind fails, a socket that
-- serves, or a failure at which a wrapper ends the process.
pub data Attempt : Type 0 where
  no_socket : Attempt
  refused : ℕ → Attempt
  served : ℕ → Attempt
  fatal : Attempt

-- The open descriptors of the process, and the memory.
pub record Process : Type 0 where
  pub open_fds : List ℕ
  pub world : World

-- A descriptor and the entry that it serves; or the end of the process by err_quit or err_sys.
pub data Dialled : Type 0 where
  dialled : ℕ → AddrInfo → Process → Dialled
  exits : Dialled

-- `Close(fd)`, and the descriptor is the latest that was opened.
abbrev close_latest : List ℕ → List ℕ
close_latest [] = []
close_latest (fd ∷ fds) = fds

-- The body of the loop at one entry, where `next` goes on with the entries behind it.
unfoldable pub dial_one : (Process → Dialled) → AddrInfo → Process → Attempt → Dialled
dial_one next ai p no_socket = next p
dial_one next ai p (refused fd) = next (record p { open_fds = close_latest (fd ∷ p.open_fds) })
dial_one next ai p (served fd) = dialled fd ai (record p { open_fds = fd ∷ p.open_fds })
dial_one next ai p fatal = exits

module _ (attempt : AddrInfo → Attempt) where
  -- The loop over the list: the first entry that serves.
  unfoldable pub dial_each : List AddrInfo → Process → Dialled
  unfolding dial_one
  dial_each [] p = exits
  dial_each (ai ∷ rest) p = dial_one (dial_each rest) ai p (attempt ai)

  -- `freeaddrinfo(ressave)` behind the loop.
  unfoldable pub free_result : List AddrInfo → Dialled → Dialled
  free_result list exits = exits
  free_result list (dialled fd ai p) =
      dialled fd ai (record p { world = freeaddrinfo list p.world })

  unfoldable pub dial_outcome : List ℕ → Outcome → Dialled
  dial_outcome fds quit = exits
  dial_outcome fds (failed e w) = exits
  dial_outcome fds (ok list w) =
      free_result list (dial_each list (record { open_fds = fds; world = w }))

abbrev pub hints_for : ℕ → ℕ → AddrInfo
hints_for flags socktype = record {
  ai_flags = flags;
  ai_family = af_unspec;
  ai_socktype = socktype;
  ai_protocol = 0;
  ai_addrlen = 0;
  ai_canonname = none;
  ai_addr = none;
}

-- What the four functions share.
unfoldable pub dial :
    Resolver → (AddrInfo → Attempt) → AddrInfo → Option Bytes → Option Bytes → Process → Dialled
unfolding dial_outcome
dial r attempt hints host serv p =
    dial_outcome attempt p.open_fds (getaddrinfo r host serv (some hints) p.world)

-- `Listen` ends the process on an error; the address length is returned beside the descriptor.
unfoldable pub listening : (ℕ → Bool) → Dialled → Dialled
listening listen exits = exits
listening listen (dialled fd ai p) = if listen fd then dialled fd ai p else exits

module _ (r : Resolver) (attempt : AddrInfo → Attempt) where
  unfoldable pub tcp_connect : Bytes → Bytes → Process → Dialled
  unfolding dial
  tcp_connect host serv p = dial r attempt (hints_for 0 sock_stream) (some host) (some serv) p

  unfoldable pub udp_connect : Bytes → Bytes → Process → Dialled
  unfolding dial
  udp_connect host serv p = dial r attempt (hints_for 0 sock_dgram) (some host) (some serv) p

  unfoldable pub udp_server : Option Bytes → Option Bytes → Process → Dialled
  unfolding dial
  udp_server host serv p = dial r attempt (hints_for ai_passive sock_dgram) host serv p

  unfoldable pub tcp_listen : (ℕ → Bool) → Option Bytes → Option Bytes → Process → Dialled
  unfolding dial
  tcp_listen listen host serv p =
      listening listen (dial r attempt (hints_for ai_passive sock_stream) host serv p)
