-- ===== src/Server/Poll/Loop.antt =====
-- unp/unpv13e/tcpcliserv/tcpservpoll01.c: what the loop over the clients does to the table.
use cpplearn.Common.{
  ℕ, zero, suc, ◌+◌, ◌-◌, ◌≡◌, inl, inr, refl, ◌∙◌, Option, none, some, List, [], ◌∷◌, ◌⊎◌, Bytes,
  if◌then◌else◌, ◌==◌, arith, Bool-cases,
}
use cpplearn.Server.Select.Table.{FreeFrom}
use cpplearn.Server.Poll.{
  PollState, ReadResult, bytes, at_eof, connreset, other_error, write_fails, Checked, checked,
  failed, put_entry, serve_entry, after_entry, check_client, check_from,
}

-- How often a descriptor stands in a list, and in the table.
abbrev pub times : ℕ → List ℕ → ℕ
times fd [] = 0
times fd (d ∷ rest) = (if d == fd then 1 else 0) + times fd rest

abbrev pub held : ℕ → List (Option ℕ) → ℕ
held fd [] = 0
held fd (none ∷ rest) = held fd rest
held fd (some d ∷ rest) = (if d == fd then 1 else 0) + held fd rest

-- At some index read fails with an error that is not a reset, or Writen fails.
abbrev pub Fails : (ℕ → Option ReadResult) → Type 0
Fails revents =
    (i : ℕ) × ((revents i ≡ some other_error)
      ⊎ ((data_read : Bytes) × (revents i ≡ some (write_fails data_read))))

-- The loop empties entries only, and closes what they held.
abbrev pub Keeps : (ℕ → Option ReadResult) → List (Option ℕ) → PollState → Checked → Type 0
Keeps revents entries s failed = Fails revents
Keeps revents entries s (checked entries' s') =
    ((j : ℕ) → FreeFrom j entries → FreeFrom j entries')
    × ((fd : ℕ) → held fd entries' + times fd s'.closed ≡ held fd entries + times fd s.closed)
    × (s'.accepted ≡ s.accepted)
    × (s'.maxi ≡ s.maxi)

Keeps-refl :
    (revents : ℕ → Option ReadResult) (entries : List (Option ℕ)) (s : PollState)
    → Keeps revents entries s (checked entries s)
Keeps-refl revents entries s = ((λ j h. h), (λ fd. refl), refl, refl)

Keeps-trans :
    (revents : ℕ → Option ReadResult) (es es' : List (Option ℕ)) (s s' : PollState) (c : Checked)
    → Keeps revents es s (checked es' s')
    → Keeps revents es' s' c
    → Keeps revents es s c
Keeps-trans revents es es' s s' failed h k = k
Keeps-trans revents es es' s s' (checked es'' s'') h k =
    ((λ j free. k.0 j (h.0 j free)), (λ fd. k.1 fd ∙ h.1 fd), k.2 ∙ h.2, k.3 ∙ h.3)

FreeFrom-cons :
    (entry : Option ℕ) (rest rest' : List (Option ℕ))
    → ((j : ℕ) → FreeFrom j rest → FreeFrom j rest')
    → (j : ℕ) → FreeFrom j (entry ∷ rest)
    → FreeFrom j (entry ∷ rest')
FreeFrom-cons entry rest rest' h zero free = (free.0, h 0 free.1)
FreeFrom-cons entry rest rest' h (suc j) free = h j free

FreeFrom-emptied :
    (sockfd : ℕ) (rest : List (Option ℕ)) (j : ℕ)
    → FreeFrom j (some sockfd ∷ rest)
    → FreeFrom j (none ∷ rest)
FreeFrom-emptied sockfd rest zero free = (refl, free.1)
FreeFrom-emptied sockfd rest (suc j) free = free

-- An entry that the loop leaves as it is.
Keeps-put :
    (revents : ℕ → Option ReadResult) (entry : Option ℕ) (rest : List (Option ℕ)) (s : PollState)
    (c : Checked)
    → Keeps revents rest s c
    → Keeps revents (entry ∷ rest) s (put_entry entry c)
Keeps-put revents entry rest s failed h = h
Keeps-put revents none rest s (checked rest' s') h =
    (FreeFrom-cons none rest rest' h.0, h.1, h.2, h.3)
Keeps-put revents (some d) rest s (checked rest' s') h =
    (FreeFrom-cons (some d) rest rest' h.0, (λ fd. omega (arith, h.1 fd)), h.2, h.3)

-- An entry that is closed.
Keeps-closed :
    (revents : ℕ → Option ReadResult) (sockfd : ℕ) (rest : List (Option ℕ)) (s : PollState)
    → Keeps revents
        (some sockfd ∷ rest)
        s
        (checked (none ∷ rest) (record s { closed = sockfd ∷ s.closed }))
Keeps-closed revents sockfd rest s = (FreeFrom-emptied sockfd rest, (λ fd. omega arith), refl, refl)

-- The loop goes on behind an entry, or breaks.
Keeps-next :
    (revents : ℕ → Option ReadResult) (es : List (Option ℕ)) (s : PollState) (entry : Option ℕ)
    (rest : List (Option ℕ)) (s' : PollState) (next : ℕ → PollState → Checked) (nready : ℕ)
    → Keeps revents es s (checked (entry ∷ rest) s')
    → ((n : ℕ) (t : PollState) → Keeps revents rest t (next n t))
    → Keeps revents es s (after_entry rest next nready (some (entry, s')))
unfolding after_entry
Keeps-next revents es s entry rest s' next nready step ih = elim (Bool-cases (nready - 1 == 0)) [
  | inl stop ↦ rw stop step
  | inr on ↦ rw on (
      Keeps-trans revents es (entry ∷ rest) s s' (put_entry entry (next (nready - 1) s')) step
        (Keeps-put revents entry rest s' (next (nready - 1) s') (ih (nready - 1) s')))
]

after_entry-failed :
    (revents : ℕ → Option ReadResult) (es rest : List (Option ℕ)) (s : PollState)
    (next : ℕ → PollState → Checked) (nready : ℕ)
    → Fails revents
    → Keeps revents es s (after_entry rest next nready none)
unfolding after_entry
after_entry-failed revents es rest s next nready h = h

after_entry-Keeps :
    (revents : ℕ → Option ReadResult) (i sockfd : ℕ) (rest : List (Option ℕ))
    (next : ℕ → PollState → Checked) (nready : ℕ) (s : PollState) (r : ReadResult)
    → revents i ≡ some r
    → ((n : ℕ) (t : PollState) → Keeps revents rest t (next n t))
    → Keeps revents (some sockfd ∷ rest) s (after_entry rest next nready (serve_entry sockfd r s))
unfolding serve_entry
after_entry-Keeps revents i sockfd rest next nready s (bytes d) e ih =
    Keeps-next revents (some sockfd ∷ rest) s (some sockfd) rest
      (record s { echoed = (sockfd, d) ∷ s.echoed }) next nready
      ((λ j h. h), (λ fd. refl), refl, refl) ih
after_entry-Keeps revents i sockfd rest next nready s at_eof e ih =
    Keeps-next revents (some sockfd ∷ rest) s none rest (record s { closed = sockfd ∷ s.closed })
      next nready (Keeps-closed revents sockfd rest s) ih
after_entry-Keeps revents i sockfd rest next nready s connreset e ih =
    Keeps-next revents (some sockfd ∷ rest) s none rest (record s { closed = sockfd ∷ s.closed })
      next nready (Keeps-closed revents sockfd rest s) ih
after_entry-Keeps revents i sockfd rest next nready s other_error e ih =
    after_entry-failed revents (some sockfd ∷ rest) rest s next nready (i, inl e)
after_entry-Keeps revents i sockfd rest next nready s (write_fails d) e ih =
    after_entry-failed revents (some sockfd ∷ rest) rest s next nready (i, inr (d, e))

check_client-Keeps :
    (revents : ℕ → Option ReadResult) (i sockfd : ℕ) (rest : List (Option ℕ))
    (next : ℕ → PollState → Checked) (nready : ℕ) (s : PollState) (o : Option ReadResult)
    → revents i ≡ o
    → ((n : ℕ) (t : PollState) → Keeps revents rest t (next n t))
    → Keeps revents (some sockfd ∷ rest) s (check_client sockfd rest next nready s o)
check_client-Keeps revents i sockfd rest next nready s none e ih =
    Keeps-put revents (some sockfd) rest s (next nready s) (ih nready s)
check_client-Keeps revents i sockfd rest next nready s (some r) e ih =
    after_entry-Keeps revents i sockfd rest next nready s r e ih

pub check_from-Keeps :
    (revents : ℕ → Option ReadResult) (i rounds : ℕ) (entries : List (Option ℕ)) (nready : ℕ)
    (s : PollState)
    → Keeps revents entries s (check_from revents i rounds entries nready s)
unfolding check_from
check_from-Keeps revents i zero entries nready s = Keeps-refl revents entries s
check_from-Keeps revents i (suc rounds) [] nready s = Keeps-refl revents [] s
check_from-Keeps revents i (suc rounds) (none ∷ rest) nready s =
    Keeps-put revents none rest s _ (check_from-Keeps revents (i + 1) rounds rest nready s)
check_from-Keeps revents i (suc rounds) (some sockfd ∷ rest) nready s =
    check_client-Keeps revents i sockfd rest (check_from revents (i + 1) rounds rest) nready s
      (revents i) refl (λ n t. check_from-Keeps revents (i + 1) rounds rest n t)
