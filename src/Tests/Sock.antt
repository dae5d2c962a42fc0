-- ===== src/Tests/Sock.antt =====
-- Socket addresses and the checksum at concrete inputs.
use cpplearn.Common.{
  none, ℕ, ◌≡◌, ◌≢◌, refl, some, List, [], ◌∷◌, ◌++◌, codes, if◌then◌else◌, ◌==◌, arith,
}
use cpplearn.Common.Decimal.{htons, atoi, decimal}
use cpplearn.Sock.{Address, inet, positive, compare_bytes, sock_cmp_addr, sock_get_port}
use cpplearn.Sock.Print.{sock_ntop, sock_ntop_inet, InetNtop}
use cpplearn.Gai.Name.{
  Names, named, gn_ipv46, getnameinfo, host_text, host_name, serv_text, before_dot,
}
use cpplearn.Gai.Name.Fits.{BothFit, ReadBack, getnameinfo-BothFit, getnameinfo-ReadBack}

abbrev here : Address
here = inet (htons 13) (127 ∷ 0 ∷ 0 ∷ 1 ∷ [])

abbrev there : Address
there = inet (htons 13) (10 ∷ 0 ∷ 0 ∷ 9 ∷ [])

-- It knows one address of each family.
abbrev printer : InetNtop
printer family addr size = if family == 2 then some (codes "127.0.0.1") else some (codes "::1")

apart : sock_cmp_addr here there ≡ positive
unfolding sock_cmp_addr compare_bytes
apart = refl

printed : sock_ntop printer here 16 ≡ some (codes "127.0.0.1:13")
unfolding sock_ntop decimal
printed = refl

htons-13_pos : htons (htons 13) ≢ 0
htons-13_pos = λ e. omega (arith, e)

sock_ntop_inet_example :
    (t : List ℕ) × (sock_ntop printer (inet (htons 13) (127 ∷ 0 ∷ 0 ∷ 1 ∷ [])) 16
      ≡ some (codes "127.0.0.1" ++ b':' ∷ t))
    × (atoi t ≡ htons (htons 13))
sock_ntop_inet_example =
    sock_ntop_inet printer (htons 13) 16 (127 ∷ 0 ∷ 0 ∷ 1 ∷ []) (codes "127.0.0.1") htons-13_pos
      refl

-- One host and no service are known, and no numeric text fits.
abbrev directory : Names
directory = record {
  inet_ntop = λ family addr size. none;
  gethostbyaddr = λ addr family. some (codes "pi.example.org");
  getservbyport = λ port protocol. none;
}

-- NI_NOFQDN: the name up to the dot, cut to the buffer of two bytes; the port in a number.
one_name :
    getnameinfo directory (inet (htons 13) (127 ∷ 0 ∷ 0 ∷ 1 ∷ [])) 2 8 1
    ≡ named (some (codes "p")) (some (codes "13"))
unfolding getnameinfo gn_ipv46 host_text host_name serv_text before_dot decimal
one_name = refl

getnameinfo-BothFit_example :
    BothFit 2 8 (getnameinfo directory (inet (htons 13) (127 ∷ 0 ∷ 0 ∷ 1 ∷ [])) 2 8 1)
getnameinfo-BothFit_example =
    getnameinfo-BothFit directory (λ family addr size. tt) (inet (htons 13) (127 ∷ 0 ∷ 0 ∷ 1 ∷ []))
      2 8 1

getnameinfo-ReadBack_example :
    ReadBack (htons 13) (getnameinfo directory (inet (htons 13) (127 ∷ 0 ∷ 0 ∷ 1 ∷ [])) 2 8 8)
unfolding sock_get_port
getnameinfo-ReadBack_example =
    getnameinfo-ReadBack directory (inet (htons 13) (127 ∷ 0 ∷ 0 ∷ 1 ∷ [])) 2 8 8 (htons 13) refl
      (omega arith) (omega arith) refl
