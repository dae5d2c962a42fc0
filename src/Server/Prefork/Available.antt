-- ===== src/Server/Prefork/Available.antt =====
-- unp/unpv13e/server/serv05.c: the count of available children.
use cpplearn.Common.{
  ℕ, suc, ◌+◌, ◌-◌, ◌≡◌, ◌≢◌, refl, ◌∙◌, Bool, true, false, ◌&&◌, Option, none, some, List, [], ◌∷◌,
  if◌then◌else◌, arith,
}
use cpplearn.Server.Prefork.{
  Child, Parent, Pipe, idle, again, gone, Ready, Turn, running, no_children, child_terminated,
  listens, take_ready, take_behind, make_busy, pass_to, pass_connection, collect_ready,
  after_accept, second_half, turn,
}

-- The children whose status is 0.
abbrev pub count_ready : List Child → ℕ
count_ready [] = 0
count_ready (c ∷ rest) = (if c.child_busy then 0 else 1) + count_ready rest

abbrev pub IsCounted : Parent → Type 0
IsCounted p = p.navail ≡ count_ready p.children

-- A child writes to its pipe only while it is busy.
abbrev pub Honest : List Child → List Pipe → Type 0
Honest [] pipes = Unit
Honest (c ∷ rest) [] = Unit
Honest (c ∷ rest) (again ∷ pipes) = (c.child_busy ≡ true) × Honest rest pipes
Honest (c ∷ rest) (idle ∷ pipes) = Honest rest pipes
Honest (c ∷ rest) (gone ∷ pipes) = Honest rest pipes

-- After a turn the process runs, with a property, or a child has terminated.
abbrev pub Runs : (Parent → Type 0) → Turn → Type 0
Runs P (running p) = P p
Runs P no_children = ⊥
Runs P child_terminated = Unit

-- One ready child fewer, or none at all.
abbrev Taken : List Child → Option (ℕ × List Child) → Type 0
Taken children none = count_ready children ≡ 0
Taken children (some (i, children')) =
    (count_ready children ≡ suc (count_ready children'))
    × ((pipes : List Pipe) → Honest children pipes → Honest children' pipes)

Taken-behind :
    (c : Child) (rest : List Child) (o : Option (ℕ × List Child))
    → c.child_busy ≡ true
    → Taken rest o
    → Taken (c ∷ rest) (take_behind c o)
Taken-behind c rest none busy t = ground arith
Taken-behind c rest (some (i, rest')) busy t = (ground arith, honest)
  where
    honest : (pipes : List Pipe) → Honest (c ∷ rest) pipes → Honest (c ∷ rest') pipes
    honest [] h = h
    honest (idle ∷ pipes) h = t.1 pipes h
    honest (again ∷ pipes) h = (h.0, t.1 pipes h.1)
    honest (gone ∷ pipes) h = t.1 pipes h

Honest-busy :
    (c : Child) (rest : List Child) (pipes : List Pipe)
    → Honest (c ∷ rest) pipes
    → Honest (make_busy c ∷ rest) pipes
Honest-busy c rest [] h = h
Honest-busy c rest (idle ∷ pipes) h = h
Honest-busy c rest (again ∷ pipes) h = (refl, h.1)
Honest-busy c rest (gone ∷ pipes) h = h

Taken-if :
    (b : Bool) (children : List Child) (m n : Option (ℕ × List Child))
    → (b ≡ true → Taken children m)
    → (b ≡ false → Taken children n)
    → Taken children (if b then m else n)
Taken-if true children m n hm hn = hm refl
Taken-if false children m n hm hn = hn refl

take_ready-Taken : (children : List Child) → Taken children (take_ready children)
unfolding take_ready
take_ready-Taken [] = refl
take_ready-Taken (c ∷ rest) =
    Taken-if c.child_busy (c ∷ rest) (take_behind c (take_ready rest))
      (some (0, make_busy c ∷ rest))
      (λ busy. Taken-behind c rest (take_ready rest) busy (take_ready-Taken rest))
      (λ free. (ground arith, Honest-busy c rest))

abbrev Collected : List Child → Option (List Child × ℕ) → Type 0
Collected children none = Unit
Collected children (some (children', freed)) = count_ready children' ≡ count_ready children + freed

collect_ready-Collected :
    (children : List Child) (pipes : List Pipe) (nsel : ℕ)
    → Honest children pipes
    → Collected children (collect_ready children pipes nsel)
unfolding collect_ready
collect_ready-Collected [] pipes nsel h = refl
collect_ready-Collected (c ∷ rest) [] nsel h = ground arith
collect_ready-Collected (c ∷ rest) (idle ∷ pipes) nsel h =
    ground (arith, collect_ready-Collected rest pipes nsel h)
collect_ready-Collected (c ∷ rest) (again ∷ pipes) nsel (busy, h) =
    ground (arith, collect_ready-Collected rest pipes (nsel - 1) h)
collect_ready-Collected (c ∷ rest) (gone ∷ pipes) nsel h = tt

after_accept-Runs :
    (pipes : List Pipe) (nsel : ℕ) (p : Parent)
    → IsCounted p
    → Honest p.children pipes
    → Runs IsCounted (after_accept pipes nsel p)
unfolding after_accept
after_accept-Runs pipes nsel p counted honest =
    ground (arith, collect_ready-Collected p.children pipes nsel honest)

abbrev Passed : List Pipe → Parent → Type 0
Passed pipes p = IsCounted p × Honest p.children pipes

module _ (p : Parent) (pipes : List Pipe) (counted : IsCounted p)
    (honest : Honest p.children pipes) where
  pass_to-Runs :
      (o : Option (ℕ × List Child))
      → p.navail ≢ 0
      → Taken p.children o
      → Runs (Passed pipes) (pass_to p o)
  unfolding pass_to
  pass_to-Runs none left t = left (counted ∙ t)
  pass_to-Runs (some (i, children)) left t = (omega (arith, t.0), t.1 pipes honest)

  pass_connection-Runs : p.navail ≢ 0 → Runs (Passed pipes) (pass_connection p)
  unfolding pass_connection
  pass_connection-Runs left =
      pass_to-Runs (take_ready p.children) left (take_ready-Taken p.children)

second_half-Runs :
    (r : Ready) (t : Turn) → Runs (Passed r.pipes) t → Runs IsCounted (second_half r t)
unfolding second_half
second_half-Runs r (running p) h = ground (arith, after_accept-Runs r.pipes (r.nsel - 1) p h.0 h.1)
second_half-Runs r no_children h = h
second_half-Runs r child_terminated h = h

Runs-if :
    (b : Bool) (m n : Turn)
    → (b ≡ true → Runs IsCounted m)
    → (b ≡ false → Runs IsCounted n)
    → Runs IsCounted (if b then m else n)
Runs-if true m n hm hn = hm refl
Runs-if false m n hm hn = hn refl

-- A turn of the parent keeps `navail` equal to the number of children that are ready, and the call
-- of err_quit for want of a child is never reached, if children write to their pipes only while
-- they are busy.
pub turn-Runs :
    (r : Ready) (p : Parent) → IsCounted p → Honest p.children r.pipes → Runs IsCounted (turn r p)
unfolding turn
turn-Runs r p counted honest =
    Runs-if (r.listening && listens p) (second_half r (pass_connection p))
      (after_accept r.pipes r.nsel p)
      (λ new.
        second_half-Runs r (pass_connection p)
          (pass_connection-Runs p r.pipes counted honest (ground arith)))
      (λ old. after_accept-Runs r.pipes r.nsel p counted honest)
