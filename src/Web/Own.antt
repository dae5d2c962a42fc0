-- ===== src/Web/Own.antt =====
-- unp/unpv13e/threads/web03.c: f_tid of a file is the thread that was given the file.
use cpplearn.Common.{
  ℕ, zero, suc, ◌≡◌, ◌⊎◌, inl, inr, refl, sym, ap, ◌∙◌, false, some, List, [], ◌∷◌, ◌++◌, length,
  get_elem?, ◌==◌, arith, Bool-cases,
}
use cpplearn.Web.{Phase, connecting, is_unstarted, file_at, set_file, set_tid}

-- The thread f_tid of every file that has a thread was given that file.
abbrev pub Owns : List Phase → List ℕ → (ℕ → ℕ) → Type 0
Owns files threads f_tid =
    (i : ℕ) (phase : Phase)
    → file_at files i ≡ some phase
    → is_unstarted phase ≡ false
    → get_elem? threads (f_tid i) ≡ some i

-- A file after a change is the changed one, or is as it was.
set_file-cases :
    (files : List Phase) (i j : ℕ) (b p : Phase)
    → file_at (set_file files i b) j ≡ some p
    → (j ≡ i) ⊎ (file_at files j ≡ some p)
unfolding file_at set_file
set_file-cases [] i j b p h = inr h
set_file-cases (phase ∷ rest) zero zero b p h = inl refl
set_file-cases (phase ∷ rest) zero (suc j) b p h = inr h
set_file-cases (phase ∷ rest) (suc i) zero b p h = inr h
set_file-cases (phase ∷ rest) (suc i) (suc j) b p h = elim (set_file-cases rest i j b p h) [
  | inl e ↦ inl (ap suc e)
  | inr k ↦ inr k
]

get_elem?-kept :
    (xs : List ℕ) (y k x : ℕ) → get_elem? xs k ≡ some x → get_elem? (xs ++ (y ∷ [])) k ≡ some x
get_elem?-kept [] y k x h = absurd (cc)
get_elem?-kept (a ∷ xs) y zero x h = h
get_elem?-kept (a ∷ xs) y (suc k) x h = get_elem?-kept xs y k x h

get_elem?-last : (xs : List ℕ) (y : ℕ) → get_elem? (xs ++ (y ∷ [])) (length xs) ≡ some y
get_elem?-last [] y = refl
get_elem?-last (a ∷ xs) y = get_elem?-last xs y

module _ (files : List Phase) (threads : List ℕ) (f_tid : ℕ → ℕ) (o : Owns files threads f_tid)
    (i : ℕ) where
  -- A file that has a thread goes to another phase.
  pub Owns-set :
      (a b : Phase)
      → file_at files i ≡ some a
      → is_unstarted a ≡ false
      → Owns (set_file files i b) threads f_tid
  Owns-set a b at started j p e st = elim (set_file-cases files i j b p e) [
    | inl same ↦ ap (λ k. get_elem? threads (f_tid k)) same ∙ o i a at started ∙ ap some (sym same)
    | inr k ↦ o j p k st
  ]

  -- A thread is created for the file.
  pub Owns-start :
      Owns (set_file files i connecting) (threads ++ (i ∷ [])) (set_tid f_tid i (length threads))
  Owns-start j p e st = elim (Bool-cases (j == i)) [
    | inl same ↦
        let eq : j ≡ i = ground (arith, same) in
        rw same (get_elem?-last threads i ∙ ap some (sym eq))
    | inr other ↦ elim (set_file-cases files i j connecting p e) [
      | inl same ↦ absurd (ground (arith, other, same))
      | inr k ↦ rw other (get_elem?-kept threads i (f_tid j) j (o j p k st))
    ]
  ]
