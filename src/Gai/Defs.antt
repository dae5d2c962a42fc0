-- ===== src/Gai/Defs.antt =====
-- unp/unpv13e/libgai/addrinfo.h and gai_hdr.h: the structures, the flags and the error codes,
-- and the allocator that the functions share. The numbers of AF_xxx, SOCK_xxx and h_errno and the
-- sizes of the socket address structures are those of Linux.
use cpplearn.Common.{
  ℕ, ◌+◌, ◌-◌, Bool, true, false, Option, none, some, List, [], ◌∷◌, Bytes, if◌then◌else◌,
}

abbrev pub ai_passive : ℕ
ai_passive = 1

abbrev pub ai_canonname : ℕ
ai_canonname = 2

abbrev pub ai_clone : ℕ
ai_clone = 4

abbrev pub af_unspec : ℕ
af_unspec = 0

abbrev pub af_local : ℕ
af_local = 1

abbrev pub af_inet : ℕ
af_inet = 2

abbrev pub af_inet6 : ℕ
af_inet6 = 10

abbrev pub sock_stream : ℕ
sock_stream = 1

abbrev pub sock_dgram : ℕ
sock_dgram = 2

abbrev pub sock_raw : ℕ
sock_raw = 3

-- `char sun_path[108]`
abbrev pub sun_path_size : ℕ
sun_path_size = 108

pub data SockAddr : Type 0 where
  -- sockaddr_in and sockaddr_in6: the port, in network byte order, and the bytes of the address
  inet : ℕ → Bytes → SockAddr
  inet6 : ℕ → Bytes → SockAddr
  -- sockaddr_un: the path name
  unix : Bytes → SockAddr
  -- a block of no bytes, the copy of an absent address
  blank : SockAddr

-- The list that `ai_next` links is a `List` of these.
pub record AddrInfo : Type 0 where
  pub ai_flags : ℕ
  pub ai_family : ℕ
  pub ai_socktype : ℕ
  pub ai_protocol : ℕ
  pub ai_addrlen : ℕ
  pub ai_canonname : Option Bytes
  pub ai_addr : Option SockAddr

pub record Search : Type 0 where
  pub host : Bytes
  pub family : ℕ

-- What the functions change beside their own lists. `grants n` says whether the n-th request for
-- memory succeeds; `live` counts the blocks in use; `unlinked` lists the paths removed so far.
pub record World : Type 0 where
  pub grants : ℕ → Bool
  pub asked : ℕ
  pub live : ℕ
  pub unlinked : List Bytes

-- `malloc`, `calloc` and, for the copy's memory, `strdup`.
abbrev pub allocate : World → Bool × World
allocate w =
    let ok = w.grants w.asked in
    (ok, record w { asked = w.asked + 1; live = if ok then w.live + 1 else w.live })

-- The blocks given back by `free`.
abbrev pub release : ℕ → World → World
release n w = record w { live = w.live - n }

abbrev pub count_opt {ℓ} : {A : Type ℓ} → Option A → ℕ
count_opt none = 0
count_opt (some a) = 1

-- The blocks that one entry owns: itself, its socket address and its canonical name.
abbrev pub blocks : AddrInfo → ℕ
blocks ai = 1 + count_opt ai.ai_addr + count_opt ai.ai_canonname

abbrev pub total_blocks : List AddrInfo → ℕ
total_blocks [] = 0
total_blocks (ai ∷ rest) = blocks ai + total_blocks rest

-- A null pointer or an empty C string.
abbrev pub is_blank : Option Bytes → Bool
is_blank none = true
is_blank (some []) = true
is_blank (some (c ∷ s)) = false
