-- ===== src/Dial/Kept.antt =====
-- unp/unpv13e/lib/tcp_connect.c and its kin: what a call leaves behind.
use cpplearn.Common.{
  ℕ, ◌+◌, ◌≡◌, ◌⊎◌, inl, inr, refl, ap, ◌∙◌, Bool, true, false, Option, some, List, [], ◌∷◌, Bytes,
  if◌then◌else◌, arith,
}
use cpplearn.Gai.Defs.{ai_passive, sock_stream, AddrInfo, World, total_blocks}
use cpplearn.Gai.Serv.{freeaddrinfo_blocks}
use cpplearn.Gai.Lookup.{Resolver}
use cpplearn.Gai.Call.{Outcome, quit, ok, failed, is_unix}
use cpplearn.Gai.Leaks.{wants_canon}
use cpplearn.Gai.Leaks.Whole.{MemoryKept, getaddrinfo_memory}
use cpplearn.Dial.{
  Attempt, no_socket, refused, served, fatal, Process, Dialled, dialled, exits, dial_one, dial_each,
  free_result, dial_outcome, hints_for, dial, listening, tcp_connect, tcp_listen,
}

-- Every entry before the one that serves was tried in order and gave no socket or was refused.
abbrev pub FirstServed : (AddrInfo → Attempt) → List AddrInfo → ℕ → AddrInfo → Type 0
FirstServed attempt [] fd ai = ⊥
FirstServed attempt (a ∷ rest) fd ai =
    ((a ≡ ai) × (attempt a ≡ served fd))
    ⊎ (((attempt a ≡ no_socket) ⊎ ((n : ℕ) × (attempt a ≡ refused n)))
        × FirstServed attempt rest fd ai)

-- One descriptor more is open, and as much memory is in use as before.
abbrev pub OneMore : Process → Dialled → Type 0
OneMore p exits = Unit
OneMore p (dialled fd ai p') = (p'.open_fds ≡ fd ∷ p.open_fds) × (p'.world.live ≡ p.world.live)

abbrev pub Each : (AddrInfo → Attempt) → List AddrInfo → Process → Dialled → Type 0
Each attempt list p exits = Unit
Each attempt list p (dialled fd ai p') =
    FirstServed attempt list fd ai × (p'.open_fds ≡ fd ∷ p.open_fds) × (p'.world ≡ p.world)

module _ (attempt : AddrInfo → Attempt) where
  Each-skip :
      (a : AddrInfo) (rest : List AddrInfo) (p : Process) (d : Dialled)
      → (attempt a ≡ no_socket) ⊎ ((n : ℕ) × (attempt a ≡ refused n))
      → Each attempt rest p d
      → Each attempt (a ∷ rest) p d
  Each-skip a rest p exits s h = tt
  Each-skip a rest p (dialled fd ai p') s h = (inr (s, h.0), h.1, h.2)

  -- The case of one entry, with what its attempt gave.
  dial_step :
      (a : AddrInfo) (rest : List AddrInfo) (p : Process) (t : Attempt)
      → attempt a ≡ t
      → ((q : Process) → Each attempt rest q (dial_each attempt rest q))
      → Each attempt (a ∷ rest) p (dial_one (dial_each attempt rest) a p t)
  unfolding dial_one
  dial_step a rest p no_socket e ih = Each-skip a rest p (dial_each attempt rest p) (inl e) (ih p)
  dial_step a rest p (refused n) e ih =
      Each-skip a rest p (dial_each attempt rest p) (inr (n, e)) (ih p)
  dial_step a rest p (served fd) e ih = (inl (refl, e), refl, refl)
  dial_step a rest p fatal e ih = tt

  pub dial_each-Each :
      (list : List AddrInfo) (p : Process) → Each attempt list p (dial_each attempt list p)
  unfolding dial_each
  dial_each-Each [] p = tt
  dial_each-Each (a ∷ rest) p = dial_step a rest p (attempt a) refl (dial_each-Each rest)

  free_result-OneMore :
      (list : List AddrInfo) (base : Process) (p : Process) (d : Dialled)
      → p.open_fds ≡ base.open_fds
      → p.world.live ≡ base.world.live + total_blocks list
      → Each attempt list p d
      → OneMore base (free_result attempt list d)
  unfolding free_result
  free_result-OneMore list base p exits e l h = tt
  free_result-OneMore list base p (dialled fd ai p') e l h = (
    h.1 ∙ ap (λ fds. fd ∷ fds) e,
    let live : p'.world.live ≡ p.world.live = ap (λ (w : World). w.live) h.2 in
        omega (arith, freeaddrinfo_blocks list p'.world (omega arith), live),
  )

  dial_outcome-OneMore :
      (p : Process) (asked : Bool) (o : Outcome)
      → MemoryKept asked p.world.live o
      → OneMore p (dial_outcome attempt p.open_fds o)
  unfolding dial_outcome
  dial_outcome-OneMore p asked quit h = tt
  dial_outcome-OneMore p asked (failed e w) h = tt
  dial_outcome-OneMore p asked (ok list w) h =
      let start : Process = record { open_fds = p.open_fds; world = w } in
      free_result-OneMore list p start (dial_each attempt list start) refl h
        (dial_each-Each list start)

-- tcp_connect for a host of the Internet: if it returns, exactly the descriptor that it returns has
-- been opened, every other was closed, and the list of addresses has been freed.
pub tcp_connect-OneMore :
    (r : Resolver) (attempt : AddrInfo → Attempt) (host serv : Bytes) (p : Process)
    → is_unix (some host) (some serv) ≡ false
    → OneMore p (tcp_connect r attempt host serv p)
unfolding tcp_connect dial
tcp_connect-OneMore r attempt host serv p internet =
    dial_outcome-OneMore attempt p (wants_canon (some host) (hints_for 0 sock_stream)) _ (
      getaddrinfo_memory r (some host) (some serv) (some (hints_for 0 sock_stream)) p.world
        internet)

OneMore-if :
    (b : Bool) (p : Process) (d : Dialled) → OneMore p d → OneMore p (if b then d else exits)
OneMore-if true p d h = h
OneMore-if false p d h = tt

listening-OneMore :
    (listen : ℕ → Bool) (p : Process) (d : Dialled) → OneMore p d → OneMore p (listening listen d)
unfolding listening
listening-OneMore listen p exits h = tt
listening-OneMore listen p (dialled fd ai p') h = OneMore-if (listen fd) p _ h

-- tcp_listen for a host, or none, that is not of the Unix domain: if it returns, exactly the
-- descriptor that it returns has been opened, every other was closed, and the list of addresses
-- has been freed.
pub tcp_listen-OneMore :
    (r : Resolver) (attempt : AddrInfo → Attempt) (listen : ℕ → Bool) (host serv : Option Bytes)
    (p : Process)
    → is_unix host serv ≡ false
    → OneMore p (tcp_listen r attempt listen host serv p)
unfolding tcp_listen dial
tcp_listen-OneMore r attempt listen host serv p internet = listening-OneMore listen p _ (
    dial_outcome-OneMore attempt p (wants_canon host (hints_for ai_passive sock_stream)) _
      (getaddrinfo_memory r host serv (some (hints_for ai_passive sock_stream)) p.world internet))
