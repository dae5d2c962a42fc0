-- ===== src/Fifo/Links.antt =====
-- data_structure/queue.h: what a ring of nodes stands for.
use cpplearn.Common.{
  ℕ, suc, ◌%◌, ◌^◌, ◌≤◌, ◌<◌, ◌≡◌, ◌≢◌, ◌⊎◌, refl, sym, ap, ◌∙◌, Option, some, List, [], ◌∷◌, ◌++◌,
  length, All, arith,
}
use cpplearn.Fifo.{LinkNode, link_node, Memory, Queue, load}

-- An address and the element that stands there.
abbrev pub Cells : Type 0
Cells = List (ℕ × ℕ)

abbrev pub values : Cells → List ℕ
values [] = []
values ((a, x) ∷ rest) = x ∷ values rest

-- From `p` the links lead through the cells to `stop`.
abbrev pub Links : (ℕ → Option LinkNode) → ℕ → Cells → ℕ → Type 0
Links cell p [] stop = p ≡ stop
Links cell p ((a, x) ∷ rest) stop =
    (p ≡ a) × ((q : ℕ) × (cell a ≡ some (link_node x q)) × Links cell q rest stop)

-- No cell is at the address.
abbrev pub Avoids : ℕ → Cells → Type 0
Avoids b [] = Unit
Avoids b ((a, x) ∷ rest) = (a ≢ b) × Avoids b rest

-- The cells are at different addresses, which are allocated and not null.
abbrev pub Placed : (first fresh : ℕ) → Cells → Type 0
Placed first fresh [] = Unit
Placed first fresh ((a, x) ∷ rest) =
    (first ≤ a) × (a < fresh) × Avoids a rest × Placed first fresh rest

-- The last node, with `tail` for its address, links to the first.
pub record Ring (first : ℕ) (m : Memory) (q : Queue) (cells : Cells) (x : ℕ) : Type 0 where
  pub head : ℕ
  pub links : Links m.cell head cells q.tail
  pub last : m.cell q.tail ≡ some (link_node x head)
  pub placed : Placed first m.fresh cells
  pub tail_placed : (first ≤ q.tail) × (q.tail < m.fresh)
  pub apart : Avoids q.tail cells
  pub not_null : 0 < first

-- The queue holds the elements, in nodes at addresses from `first` on.
abbrev pub Holds : (first : ℕ) → Memory → Queue → List ℕ → Type 0
Holds first m q xs =
    (q.size ≡ length xs % 2 ^ 32)
    × ((0 < first) × (first ≤ m.fresh))
    × (((q.tail ≡ 0) × (xs ≡ []))
        ⊎ ((cells : Cells) × ((x : ℕ) × Ring first m q cells x × (xs ≡ values cells ++ (x ∷ [])))))

pub load-some : (p : ℕ) (m : Memory) (n : LinkNode) → 0 < p → m.cell p ≡ some n → load p m ≡ some n
unfolding load
load-some p m n pos e = ground (arith, pos, e)

-- The links are the same where the memory is.
pub Links-same :
    (cell cell' : ℕ → Option LinkNode) (p stop : ℕ) (cells : Cells) (P : ℕ → Type 0)
    → ((a : ℕ) → P a → cell' a ≡ cell a)
    → All (λ c. P c.0) cells
    → Links cell p cells stop
    → Links cell' p cells stop
Links-same cell cell' p stop [] P same on e = e
Links-same cell cell' p stop ((a, x) ∷ rest) P same on (e, (q, here, later)) =
    (e, (q, same a on.0 ∙ here, Links-same cell cell' q stop rest P same on.1 later))

pub Links-append :
    (cell : ℕ → Option LinkNode) (p a b x : ℕ) (cells : Cells)
    → Links cell p cells a
    → cell a ≡ some (link_node x b)
    → Links cell p (cells ++ ((a, x) ∷ [])) b
Links-append cell p a b x [] e here = (e, (b, here, refl))
Links-append cell p a b x ((c, y) ∷ rest) (e, (q, there, later)) here =
    (e, (q, there, Links-append cell q a b x rest later here))

pub values-append :
    (cells : Cells) (a x : ℕ) → values (cells ++ ((a, x) ∷ [])) ≡ values cells ++ (x ∷ [])
values-append [] a x = refl
values-append ((b, y) ∷ rest) a x = ap (λ xs. y ∷ xs) (values-append rest a x)

-- Every cell but one.
pub Placed-All :
    (first fresh b : ℕ) (cells : Cells)
    → Placed first fresh cells
    → Avoids b cells
    → All (λ c. (c.0 ≢ b) × (first ≤ c.0) × (c.0 < fresh)) cells
Placed-All first fresh b [] h k = tt
Placed-All first fresh b ((a, x) ∷ rest) h k =
    ((k.0, h.0, h.1), Placed-All first fresh b rest h.3 k.1)

pub Avoids-append :
    (b a x : ℕ) (cells : Cells) → a ≢ b → Avoids b cells → Avoids b (cells ++ ((a, x) ∷ []))
Avoids-append b a x [] ne h = (ne, tt)
Avoids-append b a x ((c, y) ∷ rest) ne h = (h.0, Avoids-append b a x rest ne h.1)

pub Avoids-fresh : (first fresh : ℕ) (cells : Cells) → Placed first fresh cells → Avoids fresh cells
Avoids-fresh first fresh [] h = tt
Avoids-fresh first fresh ((a, x) ∷ rest) h =
    ((λ e. omega (arith, e, h.1)), Avoids-fresh first fresh rest h.3)

pub Placed-append :
    (first fresh a x : ℕ) (cells : Cells)
    → Placed first fresh cells
    → first ≤ a
    → a < fresh
    → Avoids a cells
    → Placed first (suc fresh) (cells ++ ((a, x) ∷ []))
Placed-append first fresh a x [] h ge lt apart = (ge, omega (arith, lt), tt, tt)
Placed-append first fresh a x ((b, y) ∷ rest) h ge lt apart = (
  h.0,
  omega (arith, h.1),
  Avoids-append b a x rest (λ e. apart.0 (sym e)) h.2,
  Placed-append first fresh a x rest h.3 ge lt apart.1,
)
