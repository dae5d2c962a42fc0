-- ===== src/Bst/Sorted.antt =====
-- data_structure/BST.h: the specification, a list in strictly ascending order.
use cpplearn.Common.{
  ℕ, ◌<◌, ◌≡◌, refl, Bool, true, false, ◌||◌, List, [], ◌∷◌, ◌++◌, if◌then◌else◌, ◌==◌, ltb, All,
  arith,
}
use cpplearn.Bst.{Tree, leaf, node}

abbrev pub Below : ℕ → ℕ → Type 0
Below x y = x < y

abbrev pub Sorted : List ℕ → Type 0
Sorted [] = Unit
Sorted (x ∷ xs) = All (Below x) xs × Sorted xs

abbrev pub inorder : Tree → List ℕ
inorder leaf = []
inorder (node l d r) = inorder l ++ (d ∷ inorder r)

unfoldable pub member : ℕ → List ℕ → Bool
member x [] = false
member x (y ∷ ys) = let later = member x ys in if y == x then true else later

unfoldable pub insert_sorted : ℕ → List ℕ → List ℕ
insert_sorted x [] = x ∷ []
insert_sorted x (y ∷ ys) =
    let later = insert_sorted x ys in
    if ltb x y then x ∷ y ∷ ys else if x == y then y ∷ ys else y ∷ later

unfoldable pub erase : ℕ → List ℕ → List ℕ
erase x [] = []
erase x (y ∷ ys) = let later = erase x ys in if y == x then ys else y ∷ later

abbrev pub IsBelow : ℕ → ℕ → Type 0
IsBelow x y = y < x

-- Both sides of a middle element.
pub record Around (xs : List ℕ) (d : ℕ) (ys : List ℕ) : Type 0 where
  pub left : Sorted xs
  pub right : Sorted ys
  pub lower : All (IsBelow d) xs
  pub upper : All (Below d) ys

All-append : (P : ℕ → Type 0) (xs ys : List ℕ) → All P (xs ++ ys) → All P xs × All P ys
All-append P [] ys h = (tt, h)
All-append P (x ∷ xs) ys h = let (a, b) = All-append P xs ys h.1 in ((h.0, a), b)

pub Sorted-Around : (xs : List ℕ) (d : ℕ) (ys : List ℕ) → Sorted (xs ++ (d ∷ ys)) → Around xs d ys
Sorted-Around [] d ys h = record { left = tt; right = h.1; lower = tt; upper = h.0 }
Sorted-Around (x ∷ xs) d ys h =
    let rest = Sorted-Around xs d ys h.1 in
    let (before, behind) = All-append (Below x) xs (d ∷ ys) h.0 in
    record {
      left = (before, rest.left);
      right = rest.right;
      lower = (behind.0, rest.lower);
      upper = rest.upper;
    }

member-above : (x d : ℕ) (ys : List ℕ) → x < d → All (Below d) ys → member x ys ≡ false
unfolding member
member-above x d [] lt upper = refl
member-above x d (y ∷ ys) lt upper = ground (arith, upper.0, member-above x d ys lt upper.1)

pub member-here : (x d : ℕ) (xs ys : List ℕ) → d ≡ x → member x (xs ++ (d ∷ ys)) ≡ true
unfolding member
member-here x d [] ys e = ground (arith, e)
member-here x d (y ∷ xs) ys e = ground (arith, member-here x d xs ys e)

-- An element of one side is on no other.
pub member-lower :
    (x d : ℕ) (xs ys : List ℕ) → x < d → All (Below d) ys → member x (xs ++ (d ∷ ys)) ≡ member x xs
unfolding member
member-lower x d [] ys lt upper = ground (arith, member-above x d ys lt upper)
member-lower x d (y ∷ xs) ys lt upper = ground (arith, member-lower x d xs ys lt upper)

pub member-upper :
    (x d : ℕ) (xs ys : List ℕ)
    → d < x
    → All (IsBelow d) xs
    → member x (xs ++ (d ∷ ys)) ≡ member x ys
unfolding member
member-upper x d [] ys lt lower = ground arith
member-upper x d (y ∷ xs) ys lt lower = ground (arith, member-upper x d xs ys lt lower.1, lower.0)

pub insert_sorted-lower :
    (x d : ℕ) (xs ys : List ℕ)
    → x < d
    → insert_sorted x (xs ++ (d ∷ ys)) ≡ insert_sorted x xs ++ (d ∷ ys)
unfolding insert_sorted
insert_sorted-lower x d [] ys lt = ground arith
insert_sorted-lower x d (y ∷ xs) ys lt = ground (arith, insert_sorted-lower x d xs ys lt)

pub insert_sorted-upper :
    (x d : ℕ) (xs ys : List ℕ)
    → d < x
    → All (IsBelow d) xs
    → insert_sorted x (xs ++ (d ∷ ys)) ≡ xs ++ (d ∷ insert_sorted x ys)
unfolding insert_sorted
insert_sorted-upper x d [] ys lt lower = ground arith
insert_sorted-upper x d (y ∷ xs) ys lt lower =
    ground (arith, insert_sorted-upper x d xs ys lt lower.1, lower.0)

pub erase-upper :
    (x d : ℕ) (xs ys : List ℕ)
    → d < x
    → All (IsBelow d) xs
    → erase x (xs ++ (d ∷ ys)) ≡ xs ++ (d ∷ erase x ys)
unfolding erase
erase-upper x d [] ys lt lower = ground arith
erase-upper x d (y ∷ xs) ys lt lower = ground (arith, erase-upper x d xs ys lt lower.1, lower.0)

-- An element of the list is erased at its place.
pub erase-here : (d : ℕ) (xs ys : List ℕ) → All (IsBelow d) xs → erase d (xs ++ (d ∷ ys)) ≡ xs ++ ys
unfolding erase
erase-here d [] ys lower = ground arith
erase-here d (y ∷ xs) ys lower = ground (arith, erase-here d xs ys lower.1, lower.0)

pub erase-lower :
    (x d : ℕ) (xs ys : List ℕ)
    → member x xs ≡ true
    → erase x (xs ++ (d ∷ ys)) ≡ erase x xs ++ (d ∷ ys)
unfolding erase member
erase-lower x d [] ys m = absurd (cc)
erase-lower x d (y ∷ xs) ys m = ground (arith, erase-lower x d xs ys)

pub member-insert_sorted :
    (x y : ℕ) (xs : List ℕ) → member y (insert_sorted x xs) ≡ ((x == y) || member y xs)
unfolding member insert_sorted
member-insert_sorted x y [] = ground arith
member-insert_sorted x y (z ∷ xs) = ground (arith, member-insert_sorted x y xs)

-- What is there is not put in again.
pub insert_sorted-member :
    (x : ℕ) (xs : List ℕ) → Sorted xs → member x xs ≡ true → insert_sorted x xs ≡ xs
unfolding member insert_sorted
insert_sorted-member x [] h m = absurd (cc)
insert_sorted-member x (y ∷ xs) h m =
    ground (arith, m, h.0, member-above x y xs, insert_sorted-member x xs h.1)

All-insert_sorted :
    (d x : ℕ) (xs : List ℕ) → d < x → All (Below d) xs → All (Below d) (insert_sorted x xs)
unfolding insert_sorted
All-insert_sorted d x [] lt h = (lt, tt)
All-insert_sorted d x (y ∷ xs) lt h = ground (arith, h.0, h.1, All-insert_sorted d x xs lt h.1)

All-weaken : (d x : ℕ) (xs : List ℕ) → d < x → All (Below x) xs → All (Below d) xs
All-weaken d x [] lt h = tt
All-weaken d x (y ∷ xs) lt h = (omega (arith, lt, h.0), All-weaken d x xs lt h.1)

pub insert_sorted-Sorted : (x : ℕ) (xs : List ℕ) → Sorted xs → Sorted (insert_sorted x xs)
unfolding insert_sorted
insert_sorted-Sorted x [] h = (tt, tt)
insert_sorted-Sorted x (y ∷ xs) h =
    ground
      (arith, h.0, h.1, All-weaken x y xs, All-insert_sorted y x xs, insert_sorted-Sorted x xs h.1)

All-erase : (d x : ℕ) (xs : List ℕ) → All (Below d) xs → All (Below d) (erase x xs)
unfolding erase
All-erase d x [] h = tt
All-erase d x (y ∷ xs) h = ground (arith, h.0, h.1, All-erase d x xs h.1)

pub erase-Sorted : (x : ℕ) (xs : List ℕ) → Sorted xs → Sorted (erase x xs)
unfolding erase
erase-Sorted x [] h = tt
erase-Sorted x (y ∷ xs) h = ground (arith, h.0, h.1, All-erase y x xs h.0, erase-Sorted x xs h.1)

pub erase_missing : (x : ℕ) (xs : List ℕ) → member x xs ≡ false → erase x xs ≡ xs
unfolding member erase
erase_missing x [] m = refl
erase_missing x (y ∷ xs) m = ground (arith, m, erase_missing x xs)
