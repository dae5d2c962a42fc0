-- ===== src/Sock/Parts.antt =====
-- unp/unpv13e/lib: comparing and setting the parts of a socket address.
use cpplearn.Common.{ℕ, ◌^◌, ◌<◌, ◌≡◌, ◌↔◌, refl, some, [], ◌∷◌, Bytes, arith}
use cpplearn.Sock.{
  Address, inet, inet6, unix, other, same, positive, compare_bytes, sock_cmp_addr, sock_cmp_port,
  sock_get_port, sock_set_port, sock_set_addr, sock_set_wild,
}

-- The families that have ports.
abbrev pub HasPort : Address → Type 0
HasPort (inet p a) = Unit
HasPort (inet6 p a) = Unit
HasPort _ = ⊥

-- One family that is known, and one address or path, whatever the ports.
abbrev pub SameHost : Address → Address → Type 0
SameHost (inet p a) (inet q b) = a ≡ b
SameHost (inet6 p a) (inet6 q b) = a ≡ b
SameHost (unix a) (unix b) = a ≡ b
SameHost _ _ = ⊥

-- One family with ports, and one port.
abbrev pub SamePort : Address → Address → Type 0
SamePort (inet p a) (inet q b) = p ≡ q
SamePort (inet6 p a) (inet6 q b) = p ≡ q
SamePort _ _ = ⊥

compare_bytes_iff : (xs ys : Bytes) → (compare_bytes xs ys ≡ same) ↔ (xs ≡ ys)
unfolding compare_bytes
compare_bytes_iff [] [] = (λ e. refl, λ e. refl)
compare_bytes_iff [] (b ∷ bs) = ground arith
compare_bytes_iff (a ∷ rest) [] = ground arith
compare_bytes_iff (a ∷ rest) (b ∷ bs) = ground (arith, compare_bytes_iff rest bs)

-- sock_cmp_addr returns 0 exactly for one known family and one address or path.
pub sock_cmp_addr_iff : (x y : Address) → (sock_cmp_addr x y ≡ same) ↔ SameHost x y
unfolding sock_cmp_addr
sock_cmp_addr_iff (inet p a) (inet q b) = compare_bytes_iff a b
sock_cmp_addr_iff (inet6 p a) (inet6 q b) = compare_bytes_iff a b
sock_cmp_addr_iff (unix a) (unix b) = compare_bytes_iff a b
sock_cmp_addr_iff _ _ = ground arith

-- sock_cmp_port returns a positive value exactly for one family and one port; sock_cmp_addr returns
-- 0 where the addresses are the same.
pub sock_cmp_port_iff : (x y : Address) → (sock_cmp_port x y ≡ positive) ↔ SamePort x y
unfolding sock_cmp_port
sock_cmp_port_iff (inet p a) (inet q b) = ground arith
sock_cmp_port_iff (inet6 p a) (inet6 q b) = ground arith
sock_cmp_port_iff _ _ = ground arith

-- A port of sixteen bits that is set is read back, and the address is the same as before.
pub sock_get_port-sock_set_port :
    (x : Address) (port : ℕ)
    → HasPort x
    → port < 2 ^ 16
    → (sock_get_port (sock_set_port x port) ≡ some port)
      × (sock_cmp_addr x (sock_set_port x port) ≡ same)
unfolding sock_get_port sock_set_port
sock_get_port-sock_set_port (inet p a) port h small = (ground arith, (sock_cmp_addr_iff _ _).1 refl)
sock_get_port-sock_set_port (inet6 p a) port h small =
    (ground arith, (sock_cmp_addr_iff _ _).1 refl)
sock_get_port-sock_set_port (unix path) port h small = absurd h
sock_get_port-sock_set_port (other f) port h small = absurd h

-- The wildcard address of a family is one, whatever was there; the port is left alone.
pub sock_cmp_addr-sock_set_wild :
    (x y : Address)
    → SamePort x y
    → (sock_cmp_addr (sock_set_wild x) (sock_set_wild y) ≡ same)
      × (sock_get_port (sock_set_wild x) ≡ sock_get_port y)
unfolding sock_set_wild sock_set_addr sock_get_port
sock_cmp_addr-sock_set_wild (inet p a) (inet q b) h = ((sock_cmp_addr_iff _ _).1 refl, ground arith)
sock_cmp_addr-sock_set_wild (inet6 p a) (inet6 q b) h =
    ((sock_cmp_addr_iff _ _).1 refl, ground arith)
sock_cmp_addr-sock_set_wild _ _ h = absurd (ground arith)
