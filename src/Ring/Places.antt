-- ===== src/Ring/Places.antt =====
-- recv_engine/rw_ring.h: where the objects of a ring lie.
use Prim.Native.Nat.{◌∣◌}
use native.Mathlib.Decide.{dec_lt}
use native.Mathlib.Nat.{
  mod-mod_of_dvd, dvd-mul_left_of_dvd, dvd_refl, pow-succ', mod-lt, mod-eq_of_lt, mod-eq-sub-mod,
  mod-add-mod, one-le-pow, pow-le-pow_right,
}
use cpplearn.Common.{
  ℕ, zero, suc, ◌+◌, ◌-◌, ◌%◌, ◌^◌, ◌≤◌, ◌<◌, ◌≡◌, ◌≢◌, ◌⊎◌, inl, inr, refl, sym, ap, ◌∙◌, List, [],
  ◌∷◌, ◌++◌, length, get_or, arith, set, get_or-set_ne,
}

-- The objects of a ring of `size` places from an index on.
abbrev pub objects : List ℕ → (size index n : ℕ) → List ℕ
objects objs size index zero = []
objects objs size index (suc n) = get_or objs (index % size) 0 ∷ objects objs size (index + 1) n

dvd_pow : (j k n : ℕ) → n ≡ j + k → (2 ^ k) ∣ (2 ^ n)
dvd_pow zero k n e = let same : n ≡ k = omega arith in rw same (dvd_refl (2 ^ k))
dvd_pow (suc j) k zero e = absurd (omega arith)
dvd_pow (suc j) k (suc n) e =
    rw (pow-succ' 2 n) (dvd-mul_left_of_dvd (2 ^ k) (dvd_pow j k n (omega arith)) 2)

pub pow_bound : (k : ℕ) → k < 28 → (0 < 2 ^ k) × (2 ^ k < 2 ^ 28)
pow_bound k small = (
  one-le-pow k 2 (omega arith),
  omega (arith, pow-le-pow_right {n = 2} (omega arith) {i = k} {j = 27} (omega arith)),
)

-- The ring divides the range of the indices, so that wrapping them leaves their places alone.
pub mod_wrap : (k index : ℕ) → k < 28 → index % 2 ^ 32 % 2 ^ k ≡ index % 2 ^ k
mod_wrap k index small = mod-mod_of_dvd (2 ^ k) index (dvd_pow (32 - k) k 32 (omega arith))

mod_cases : (m x : ℕ) → x < m + m → ((x < m) × (x % m ≡ x)) ⊎ ((m ≤ x) × (x % m ≡ x - m))
mod_cases m x h = elim (dec_lt x m) [
  | yes lt ↦ inl (lt, mod-eq_of_lt lt)
  | no ge ↦
      inr (
        omega (arith, ge),
        mod-eq-sub-mod (omega (arith, ge)) ∙ mod-eq_of_lt (omega (arith, ge, h)),
      )
]

-- Two places less than `m` apart are different.
pub mod_apart : (m x i n : ℕ) → i < n → n < m → (x + i) % m ≢ (x + n) % m
mod_apart m x i n lt fits e =
    let lower = mod-add-mod x m i in
    let upper = mod-add-mod x m n in
    let rest : x % m < m = mod-lt x (omega arith) in
    omega (
      arith,
      e,
      lower,
      upper,
      rest,
      mod_cases m (x % m + i) (omega (arith, rest)),
      mod_cases m (x % m + n) (omega (arith, rest)),
    )

module _ (objs : List ℕ) (m : ℕ) where
  pub objects_mod : (n x y : ℕ) → x % m ≡ y % m → objects objs m x n ≡ objects objs m y n
  objects_mod zero x y e = refl
  objects_mod (suc n) x y e =
      let next : (x + 1) % m ≡ (y + 1) % m =
        sym (mod-add-mod x m 1) ∙ ap (λ a. (a + 1) % m) e ∙ mod-add-mod y m 1 in
      rw (e, objects_mod n (x + 1) (y + 1) next) refl

  pub objects_last :
      (n x : ℕ)
      → objects objs m x (suc n) ≡ objects objs m x n ++ (get_or objs ((x + n) % m) 0 ∷ [])
  objects_last zero x = let here : x + 0 ≡ x = omega arith in rw here refl
  objects_last (suc n) x =
      let there : x + suc n ≡ x + 1 + n = omega arith in
      rw there (ap (λ rest. get_or objs (x % m) 0 ∷ rest) (objects_last n (x + 1)))

  pub objects-set :
      (n x j v : ℕ)
      → j < length objs
      → ((i : ℕ) → i < n → (x + i) % m ≢ j)
      → objects (set objs j v) m x n ≡ objects objs m x n
  objects-set zero x j v fits apart = refl
  objects-set (suc n) x j v fits apart =
      let here : x + 0 ≡ x = omega arith in
      let first : get_or (set objs j v) (x % m) 0 ≡ get_or objs (x % m) 0 =
        get_or-set_ne objs j (x % m) v 0 (λ e. apart 0 (omega arith) (rw here e)) in
      let later = objects-set n (x + 1) j v fits (λ i lt e.
        apart (suc i) (omega (arith, lt))
          (let there : x + suc i ≡ x + 1 + i = omega arith in rw there e)) in
      rw (first, later) refl
