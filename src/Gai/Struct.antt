-- ===== src/Gai/Struct.antt =====
-- unp/unpv13e/libgai/ga_aistruct.c and ga_clone.c: entries made and copied.
use cpplearn.Common.{
  ℕ, ◌+◌, ◌≡◌, refl, true, ◌&&◌, Option, none, some, List, [], ◌∷◌, ◌++◌, Bytes, length, take,
  if◌then◌else◌, ◌==◌, leb, has_flag, set_flag, arith,
}
use cpplearn.Gai.Defs.{
  af_inet, af_inet6, af_local, ai_clone, ai_passive, sun_path_size, AddrInfo, SockAddr, inet, inet6,
  unix, blank, World, allocate, blocks, total_blocks,
}
use cpplearn.Gai.Eai

-- A return code, the list that the caller's pointers reach, and the world.
pub record Built : Type 0 where
  pub rc : ℕ
  pub list : List AddrInfo
  pub world : World

-- The new entry before the switch on the family.
abbrev new_entry : AddrInfo → ℕ → AddrInfo
new_entry hints family = record {
  ai_flags = if hints.ai_socktype == 0 then set_flag 0 ai_clone else 0;
  ai_family = family;
  ai_socktype = hints.ai_socktype;
  ai_protocol = hints.ai_protocol;
  ai_addrlen = 0;
  ai_canonname = none;
  ai_addr = none;
}

-- The socket address is allocated and hung into the entry, which is in the list already.
unfoldable pub attach_addr : List AddrInfo → World → AddrInfo → ℕ → SockAddr → Built
attach_addr ais w ai len addr =
    let (ok, w') = allocate w in
    if ok
    then record {
      rc = 0;
      list = ais ++ record ai { ai_addrlen = len; ai_addr = some addr } ∷ [];
      world = w';
    }
    else record { rc = Eai.memory; list = ais ++ ai ∷ []; world = w' }

-- `unlink(unp->sun_path)` for a passive entry that was made.
abbrev unlink_path : AddrInfo → Bytes → Built → Built
unlink_path hints path b =
    if has_flag hints.ai_flags ai_passive && b.rc == 0
    then record b { world = record b.world { unlinked = path ∷ b.world.unlinked } }
    else b

unfoldable pub fill_addr : List AddrInfo → World → AddrInfo → AddrInfo → Bytes → Built
fill_addr ais w hints ai addr =
    if ai.ai_family == af_inet
    then attach_addr ais w ai 16 (inet 0 (take 4 addr))
    else if ai.ai_family == af_inet6
    then attach_addr ais w ai 28 (inet6 0 (take 16 addr))
    else if ai.ai_family == af_local
    then if leb sun_path_size (length addr)
      then record { rc = Eai.service; list = ais ++ ai ∷ []; world = w }
      else unlink_path hints addr (attach_addr ais w ai 110 (unix addr))
    else record { rc = 0; list = ais ++ ai ∷ []; world = w }

unfoldable pub ga_aistruct : List AddrInfo → World → AddrInfo → Bytes → ℕ → Built
ga_aistruct ais w hints addr family =
    let (ok, w') = allocate w in
    if ok
    then fill_addr ais w' hints (new_entry hints family) addr
    else record { rc = Eai.memory; list = ais; world = w' }

-- `new` is what the call returns, `linked` what it has put behind the entry, in any case.
pub record Cloned : Type 0 where
  pub new : Option AddrInfo
  pub linked : List AddrInfo
  pub world : World

abbrev copy_addr : Option SockAddr → SockAddr
copy_addr none = blank
copy_addr (some addr) = addr

-- The copy, but for its address: AI_CLONE is off and it has no canonical name.
abbrev pub bare_copy : AddrInfo → AddrInfo
bare_copy ai = record ai { ai_flags = 0; ai_canonname = none; ai_addr = none }

abbrev pub full_copy : AddrInfo → AddrInfo
full_copy ai = record ai {
  ai_flags = 0;
  ai_canonname = none;
  ai_addr = some (copy_addr ai.ai_addr);
}

unfoldable pub ga_clone : AddrInfo → World → Cloned
ga_clone ai w =
    let (ok, w') = allocate w in
    let (ok', w'') = allocate w' in
    if ok
    then if ok'
      then record { new = some (full_copy ai); linked = full_copy ai ∷ []; world = w'' }
      else record { new = none; linked = bare_copy ai ∷ []; world = w'' }
    else record { new = none; linked = []; world = w' }

pub total_blocks-append :
    (xs ys : List AddrInfo) → total_blocks (xs ++ ys) ≡ total_blocks xs + total_blocks ys
total_blocks-append [] ys = omega arith
total_blocks-append (x ∷ xs) ys = omega (arith, total_blocks-append xs ys)

module _ (ais : List AddrInfo) (w : World) (ai : AddrInfo) (bare : ai.ai_addr ≡ none) where
  attach_addr-blocks :
      (len : ℕ) (addr : SockAddr)
      → (attach_addr ais w ai len addr).world.live + total_blocks ais + blocks ai
        ≡ w.live + total_blocks (attach_addr ais w ai len addr).list
  unfolding attach_addr
  attach_addr-blocks len addr = ground (
    arith,
    total_blocks-append ais (ai ∷ []),
    total_blocks-append ais (record ai { ai_addrlen = len; ai_addr = some addr } ∷ []),
  )

  unlink_path_same :
      (hints : AddrInfo) (path : Bytes) (b : Built)
      → ((unlink_path hints path b).world.live ≡ b.world.live)
        × ((unlink_path hints path b).list ≡ b.list)
  unlink_path_same hints path b = ground arith

  fill_addr-blocks :
      (hints : AddrInfo) (addr : Bytes)
      → (fill_addr ais w hints ai addr).world.live + total_blocks ais + blocks ai
        ≡ w.live + total_blocks (fill_addr ais w hints ai addr).list
  unfolding fill_addr
  fill_addr-blocks hints addr = ground (
    arith,
    total_blocks-append ais (ai ∷ []),
    attach_addr-blocks 16 (inet 0 (take 4 addr)),
    attach_addr-blocks 28 (inet6 0 (take 16 addr)),
    attach_addr-blocks 110 (unix addr),
  )

-- Whatever ga_aistruct returns, the blocks that it has taken are those that its list has gained:
-- a half-made entry stays in the list, where freeaddrinfo finds it.
pub ga_aistruct_blocks :
    (ais : List AddrInfo) (w : World) (hints : AddrInfo) (addr : Bytes) (family : ℕ)
    → (ga_aistruct ais w hints addr family).world.live + total_blocks ais
      ≡ w.live + total_blocks (ga_aistruct ais w hints addr family).list
unfolding ga_aistruct
ga_aistruct_blocks ais w hints addr family =
    ground (arith, fill_addr-blocks ais (allocate w).1 (new_entry hints family) refl hints addr)

-- With memory granted, an Internet entry is put at the end of the list: it has the protocol and the
-- socket type of the hints, the address with no port, and AI_CLONE exactly if no type is asked for.
pub ga_aistruct_inet :
    (ais : List AddrInfo) (w : World) (hints : AddrInfo) (addr : Bytes)
    → ((n : ℕ) → w.grants n ≡ true)
    → ((ga_aistruct ais w hints addr af_inet).rc ≡ 0)
      × ((ga_aistruct ais w hints addr af_inet).list
          ≡ ais
            ++ record {
              ai_flags = if hints.ai_socktype == 0 then ai_clone else 0;
              ai_family = af_inet;
              ai_socktype = hints.ai_socktype;
              ai_protocol = hints.ai_protocol;
              ai_addrlen = 16;
              ai_canonname = none;
              ai_addr = some (inet 0 (take 4 addr));
            }
              ∷ [])
unfolding ga_aistruct fill_addr attach_addr
ga_aistruct_inet ais w hints addr granted = rw (granted w.asked, granted (w.asked + 1)) (refl, refl)

-- The same of ga_clone and what it has linked in.
pub ga_clone_blocks :
    (ai : AddrInfo) (w : World)
    → (ga_clone ai w).world.live ≡ w.live + total_blocks (ga_clone ai w).linked
unfolding ga_clone
ga_clone_blocks ai w = ground arith
