-- ===== src/Sock.antt =====
-- unp/unpv13e/lib: functions on socket addresses of several families. Ports are in network byte
-- order, in sixteen bits.
pub mod Parts
pub mod Print
use cpplearn.Common.{
  ℕ, zero, suc, ◌%◌, ◌^◌, Bool, Option, none, some, [], ◌∷◌, Bytes, take, if◌then◌else◌, ◌==◌, ltb,
}
use cpplearn.Common.Decimal.{htons, decimal, snprintf}

-- What a `struct sockaddr` may be: sockaddr_in and sockaddr_in6 with port and address, sockaddr_un
-- with its path, or an address of another family.
pub data Address : Type 0 where
  inet : ℕ → Bytes → Address
  inet6 : ℕ → Bytes → Address
  unix : Bytes → Address
  other : ℕ → Address

-- The sign of an `int`: -1, 0 or 1, or what memcmp and strcmp return.
pub data Sign : Type 0 where
  negative same positive : Sign

-- `memcmp` of two arrays of one size, and `strcmp`: a text that ends first is the smaller one.
unfoldable pub compare_bytes : Bytes → Bytes → Sign
compare_bytes [] [] = same
compare_bytes [] (b ∷ bs) = negative
compare_bytes (a ∷ rest) [] = positive
compare_bytes (a ∷ rest) (b ∷ bs) =
    let later = compare_bytes rest bs in
    if ltb a b then negative else if ltb b a then positive else later

unfoldable pub sock_cmp_addr : Address → Address → Sign
sock_cmp_addr (inet p a) (inet q b) = compare_bytes a b
sock_cmp_addr (inet6 p a) (inet6 q b) = compare_bytes a b
sock_cmp_addr (unix a) (unix b) = compare_bytes a b
sock_cmp_addr _ _ = negative

abbrev pub truth : Bool → Sign
truth b = if b then positive else same

-- The value of the comparison `==`, which is 1 for equal ports.
unfoldable pub sock_cmp_port : Address → Address → Sign
sock_cmp_port (inet p a) (inet q b) = truth (p == q)
sock_cmp_port (inet6 p a) (inet6 q b) = truth (p == q)
sock_cmp_port _ _ = negative

-- `none` is -1.
unfoldable pub sock_get_port : Address → Option ℕ
sock_get_port (inet p a) = some p
sock_get_port (inet6 p a) = some p
sock_get_port _ = none

unfoldable pub sock_set_port : Address → ℕ → Address
sock_set_port (inet p a) port = inet (port % 2 ^ 16) a
sock_set_port (inet6 p a) port = inet6 (port % 2 ^ 16) a
sock_set_port address port = address

unfoldable pub sock_set_addr : Address → Bytes → Address
sock_set_addr (inet p a) addr = inet p (take 4 addr)
sock_set_addr (inet6 p a) addr = inet6 p (take 16 addr)
sock_set_addr address addr = address

abbrev pub zeros : ℕ → Bytes
zeros zero = []
zeros (suc n) = 0 ∷ zeros n

-- INADDR_ANY and in6addr_any
unfoldable pub sock_set_wild : Address → Address
sock_set_wild (inet p a) = sock_set_addr (inet p a) (zeros 4)
sock_set_wild (inet6 p a) = sock_set_addr (inet6 p a) (zeros 16)
sock_set_wild address = address

-- AF_INET and AF_INET6 have the levels IPPROTO_IP and IPPROTO_IPV6; `none` is -1.
unfoldable pub family_to_level : ℕ → Option ℕ
family_to_level family = if family == 2 then some 0 else if family == 10 then some 41 else none
