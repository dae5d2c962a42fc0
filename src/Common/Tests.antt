-- ===== src/Common/Tests.antt =====
-- Boolean tests on the native numbers, the conditional, and the flag tests of the C code.
use Prim.Native.Nat.{ℕ, ◌+◌, ◌/◌, ◌%◌, compare, Ordering}
use mathlib.Core.Path.{◌≡◌, refl, sym}
use mathlib.Core.Logic.{◌⊎◌, ◌↔◌, inl, inr}
use mathlib.Core.Bool.{Bool, true, false}
use mathlib.Core.Option.{Option, none, some, some-injective}
use native.Mathlib.Omega.{arith}

abbrev pub ltb : ℕ → ℕ → Bool
ltb a b = elim (compare a b) [ Ordering.lt ↦ true | _ ↦ false ]

abbrev pub leb : ℕ → ℕ → Bool
leb a b = elim (compare a b) [ Ordering.gt ↦ false | _ ↦ true ]

infix 50 ◌==◌
abbrev pub ◌==◌ : ℕ → ℕ → Bool
a == b = elim (compare a b) [ Ordering.eq ↦ true | _ ↦ false ]

infix 1 if◌then◌else◌
abbrev pub if◌then◌else◌ {ℓ} : {A : Type ℓ} → Bool → A → A → A
if true then x else y = x
if false then x else y = y

-- What holds of both branches holds of the conditional.
pub if_keeps {ℓ κ} :
    {A : Type ℓ} (P : A → Type κ) (c : Bool) (x y : A)
    → (c ≡ true → P x)
    → (c ≡ false → P y)
    → P (if c then x else y)
if_keeps P true x y h k = h refl
if_keeps P false x y h k = k refl

pub if_both {ℓ κ} :
    {A : Type ℓ} (P : A → Type κ) (c : Bool) (x y : A) → P x → P y → P (if c then x else y)
if_both P c x y h k = if_keeps P c x y (λ e. h) (λ e. k)

-- What a step that may be blocked leads to.
abbrev pub Leads {ℓ κ} : {A : Type ℓ} → (A → Type κ) → Option A → Type κ
Leads P none = Unit
Leads P (some t) = P t

pub Leads-some {ℓ κ} :
    {A : Type ℓ} (P : A → Type κ) (o : Option A) (t : A) → Leads P o → o ≡ some t → P t
Leads-some P none t h e = absurd (cc)
Leads-some P (some u) t h e = let same : u ≡ t = some-injective u t e in rw (sym same) h

-- To split on a computed value and keep the equation.
pub Bool-cases : (b : Bool) → (b ≡ true) ⊎ (b ≡ false)
Bool-cases true = inl refl
Bool-cases false = inr refl

pub Option-cases {ℓ} : {A : Type ℓ} (o : Option A) → (o ≡ none) ⊎ ((a : A) × (o ≡ some a))
Option-cases none = inl refl
Option-cases (some a) = inr (a, refl)

pub ==_iff : (a b : ℕ) → ((a == b) ≡ true) ↔ (a ≡ b)
==_iff a b = ground arith

-- `flags & mask` for a mask of one bit.
abbrev pub has_flag : ℕ → ℕ → Bool
has_flag flags mask = flags / mask % 2 == 1

-- `flags |= mask` for a mask of one bit.
abbrev pub set_flag : ℕ → ℕ → ℕ
set_flag flags mask = if has_flag flags mask then flags else flags + mask
