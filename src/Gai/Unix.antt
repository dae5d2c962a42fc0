-- ===== src/Gai/Unix.antt =====
-- unp/unpv13e/libgai/ga_unix.c: entries for a path name of the Unix domain.
use cpplearn.Common.{
  not, ◌&&◌, Option, none, some, List, [], ◌∷◌, Bytes, if◌then◌else◌, ◌==◌, has_flag,
}
use cpplearn.Gai.Defs.{
  af_unspec, af_local, ai_canonname, sock_stream, sock_dgram, AddrInfo, World, allocate,
}
use cpplearn.Gai.Eai
use cpplearn.Gai.Struct.{Built, ga_aistruct}

-- The first entry's canonical name.
abbrev pub set_canon : Bytes → List AddrInfo → List AddrInfo
set_canon name [] = []
set_canon name (ai ∷ rest) = record ai { ai_canonname = some name } ∷ rest

-- A return code, and the list that `aihead` heads when the call returns; `*result` is set to it
-- exactly if the code is 0.
with_canon : Option Bytes → AddrInfo → Built → Built
with_canon nodename hints b =
    if has_flag hints.ai_flags ai_canonname
    then elim nodename [
      | none ↦ record b { rc = Eai.system }
      | some name ↦
          let (ok, w) = allocate b.world in
          if ok
          then record { rc = 0; list = set_canon name b.list; world = w }
          else record b { rc = Eai.memory; world = w }
    ]
    else b

-- `nodename` is what uname finds.
unfoldable pub ga_unix : Option Bytes → Bytes → AddrInfo → World → Built
unfolding with_canon
ga_unix nodename path hints w =
    if not (hints.ai_family == af_unspec) && not (hints.ai_family == af_local)
    then record { rc = Eai.addrfamily; list = []; world = w }
    else let stream = ga_aistruct [] w (record hints { ai_socktype = sock_stream }) path af_local in
      let last =
        if hints.ai_socktype == 0
        then ga_aistruct stream.list stream.world (record hints { ai_socktype = sock_dgram }) path
            af_local
        else ga_aistruct [] w hints path af_local in
      if hints.ai_socktype == 0 && not (stream.rc == 0)
      then stream
      else if not (last.rc == 0)
      then last
      else with_canon nodename hints last
