-- ===== src/Server/Select/Loop.antt =====
-- unp/unpv13e/tcpcliserv/tcpservselect01.c: what the loop over the clients does to the table.
use cpplearn.Common.{
  ℕ, zero, suc, ◌-◌, ◌≡◌, ◌⊎◌, inl, inr, refl, ◌∙◌, Option, none, some, List, [], ◌∷◌, ◌==◌,
  Bool-cases,
}
use cpplearn.Server.Select.{
  ServerState, FromClient, input, read_fails, writen_fails, serve_client, put_client, after_client,
  check_entry, check_clients,
}

-- At some descriptor Read fails, or Writen.
abbrev pub Fails : (ℕ → Option FromClient) → Type 0
Fails readable = (fd : ℕ) × ((readable fd ≡ some read_fails) ⊎ (readable fd ≡ some writen_fails))

-- Each entry is as it was or has become available.
abbrev pub Thins : List (Option ℕ) → List (Option ℕ) → Type 0
Thins [] [] = Unit
Thins (a ∷ xs) (b ∷ ys) = ((b ≡ a) ⊎ (b ≡ none)) × Thins xs ys
Thins _ _ = ⊥

Thins-refl : (xs : List (Option ℕ)) → Thins xs xs
Thins-refl [] = tt
Thins-refl (a ∷ xs) = (inl refl, Thins-refl xs)

-- The loop over the table thins it and leaves its bounds alone; or a call fails.
abbrev pub Kept :
    (ℕ → Option FromClient)
    → List (Option ℕ)
    → ServerState
    → Option (List (Option ℕ) × ServerState)
    → Type 0
Kept readable entries s none = Fails readable
Kept readable entries s (some (entries', s')) =
    Thins entries entries' × (s'.used ≡ s.used) × (s'.maxfd ≡ s.maxfd)

-- An entry that stays or is emptied, and what the rest of the loop does behind it.
put_client-Kept :
    (readable : ℕ → Option FromClient) (a b : Option ℕ) (rest : List (Option ℕ)) (s t : ServerState)
    (o : Option (List (Option ℕ) × ServerState))
    → (b ≡ a) ⊎ (b ≡ none)
    → (t.used ≡ s.used) × (t.maxfd ≡ s.maxfd)
    → Kept readable rest t o
    → Kept readable (a ∷ rest) s (put_client b o)
put_client-Kept readable a b rest s t none one same h = h
put_client-Kept readable a b rest s t (some (rest', t')) one same h =
    ((one, h.0), h.1 ∙ same.0, h.2 ∙ same.1)

module _ (readable : ℕ → Option FromClient) (fd : ℕ) (rest : List (Option ℕ))
    (next : ℕ → ServerState → Option (List (Option ℕ) × ServerState))
    (ih : (n : ℕ) (t : ServerState) → Kept readable rest t (next n t)) where
  after_client-Kept :
      (nready : ℕ) (s t : ServerState) (b : Option ℕ)
      → (b ≡ some fd) ⊎ (b ≡ none)
      → (t.used ≡ s.used) × (t.maxfd ≡ s.maxfd)
      → Kept readable (some fd ∷ rest) s (after_client rest next nready (some (b, t)))
  unfolding after_client
  after_client-Kept nready s t b one same = elim (Bool-cases (nready - 1 == 0)) [
    | inl stop ↦ rw stop ((one, Thins-refl rest), same.0, same.1)
    | inr on ↦ rw on (
        put_client-Kept readable (some fd) b rest s t (next (nready - 1) t) one same
          (ih (nready - 1) t))
  ]

  check_entry-Kept :
      (nready : ℕ) (s : ServerState) (o : Option FromClient)
      → readable fd ≡ o
      → Kept readable (some fd ∷ rest) s (check_entry fd rest next nready s o)
  unfolding check_entry serve_client after_client
  check_entry-Kept nready s none e =
      put_client-Kept readable (some fd) (some fd) rest s s (next nready s) (inl refl) (refl, refl)
        (ih nready s)
  check_entry-Kept nready s (some (input [])) e =
      after_client-Kept nready s _ none (inr refl) (refl, refl)
  check_entry-Kept nready s (some (input (b ∷ bytes))) e =
      after_client-Kept nready s _ (some fd) (inl refl) (refl, refl)
  check_entry-Kept nready s (some read_fails) e = (fd, inl e)
  check_entry-Kept nready s (some writen_fails) e = (fd, inr e)

pub check_clients-Kept :
    (readable : ℕ → Option FromClient) (rounds : ℕ) (entries : List (Option ℕ)) (nready : ℕ)
    (s : ServerState)
    → Kept readable entries s (check_clients readable rounds entries nready s)
unfolding check_clients
check_clients-Kept readable zero entries nready s = (Thins-refl entries, refl, refl)
check_clients-Kept readable (suc rounds) [] nready s = (tt, refl, refl)
check_clients-Kept readable (suc rounds) (none ∷ rest) nready s =
    put_client-Kept readable none none rest s s (check_clients readable rounds rest nready s)
      (inl refl) (refl, refl) (check_clients-Kept readable rounds rest nready s)
check_clients-Kept readable (suc rounds) (some fd ∷ rest) nready s =
    check_entry-Kept readable fd rest (check_clients readable rounds rest)
      (λ n t. check_clients-Kept readable rounds rest n t) nready s (readable fd) refl
