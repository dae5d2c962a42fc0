-- ===== src/Web/Weigh.antt =====
-- unp/unpv13e/threads/web03.c: how many files are in which phases.
use cpplearn.Common.{ℕ, zero, suc, ◌+◌, ◌≡◌, refl, some, List, [], ◌∷◌, arith}
use cpplearn.Web.{Phase, unstarted, counted, joined, file_at, set_file, all_unstarted}

-- The sum of a weight over the files.
abbrev pub weigh : (Phase → ℕ) → List Phase → ℕ
weigh f [] = 0
weigh f (phase ∷ rest) = f phase + weigh f rest

abbrev pub idle : Phase → ℕ
idle unstarted = 1
idle _ = 0

abbrev pub active : Phase → ℕ
active unstarted = 0
active joined = 0
active _ = 1

abbrev pub unread : Phase → ℕ
unread joined = 0
unread _ = 1

abbrev pub waits : Phase → ℕ
waits counted = 1
waits _ = 0

pub weigh-set_file :
    (f : Phase → ℕ) (files : List Phase) (i : ℕ) (a b : Phase)
    → file_at files i ≡ some a
    → weigh f (set_file files i b) + f a ≡ weigh f files + f b
unfolding file_at set_file
weigh-set_file f [] i a b e = ground arith
weigh-set_file f (phase ∷ rest) zero a b e =
    let same : phase ≡ a = ground arith in rw same (omega arith)
weigh-set_file f (phase ∷ rest) (suc i) a b e = omega (arith, weigh-set_file f rest i a b e)

pub weigh-all_unstarted_ones :
    (n : ℕ) → (weigh idle (all_unstarted n) ≡ n) × (weigh unread (all_unstarted n) ≡ n)
weigh-all_unstarted_ones zero = (refl, refl)
weigh-all_unstarted_ones (suc n) =
    let ih = weigh-all_unstarted_ones n in (omega (arith, ih.0), omega (arith, ih.1))

pub weigh-all_unstarted_zeros :
    (n : ℕ) → (weigh active (all_unstarted n) ≡ 0) × (weigh waits (all_unstarted n) ≡ 0)
weigh-all_unstarted_zeros zero = (refl, refl)
weigh-all_unstarted_zeros (suc n) =
    let ih = weigh-all_unstarted_zeros n in (omega (arith, ih.0), omega (arith, ih.1))
