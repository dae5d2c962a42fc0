-- ===== src/Tests/Dial.antt =====
-- Sockets for a host and a service at concrete inputs.
use cpplearn.Common.{ℕ, Option, refl, none, some, [], ◌∷◌, codes, if◌then◌else◌, ◌==◌}
use cpplearn.Gai.Defs.{af_inet, AddrInfo}
use cpplearn.Tests.Gai.{ample, network}
use cpplearn.Dial.{Attempt, refused, served, Process, tcp_connect}
use cpplearn.Dial.Client.{udp_client, OneCopy, udp_client-OneCopy}
use cpplearn.Dial.Kept.{OneMore, tcp_connect-OneMore}

-- IPv4 serves, every other family is refused.
abbrev over_inet : AddrInfo → Attempt
over_inet ai = if ai.ai_family == af_inet then served 8 else refused 7

abbrev process : Process
process = record { open_fds = 2 ∷ 1 ∷ 0 ∷ []; world = ample }

tcp_connect-OneMore_example :
    OneMore process (tcp_connect network over_inet (codes "pi") (codes "13") process)
tcp_connect-OneMore_example =
    tcp_connect-OneMore network over_inet (codes "pi") (codes "13") process refl

-- A socket for IPv4 only.
abbrev inet_socket : AddrInfo → Option ℕ
inet_socket ai = if ai.ai_family == af_inet then some 8 else none

udp_client-OneCopy_example :
    OneCopy process (udp_client inet_socket network (codes "pi") (codes "13") process)
udp_client-OneCopy_example =
    udp_client-OneCopy inet_socket network (codes "pi") (codes "13") process refl
