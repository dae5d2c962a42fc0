-- ===== src/Fifo/Ends.antt =====
-- data_structure/queue.h: push and pop.
use cpplearn.Common.{
  ℕ, suc, ◌+◌, ◌-◌, ◌%◌, ◌^◌, ◌≤◌, ◌<◌, ◌≡◌, ◌≢◌, inl, inr, refl, sym, ap, ◌∙◌, Bool, true, false,
  not, Option, none, some, List, [], ◌∷◌, ◌++◌, length, drop, ◌==◌, All, arith,
}
use cpplearn.Fifo.{
  link_behind, link_first, link_node, Memory, Queue, write, allocate_node, push, pop,
}
use cpplearn.Fifo.Links.{
  Cells, values, Links, Avoids, Ring, Holds, Links-same, Links-append, values-append, Placed-All,
  Avoids-append, Avoids-fresh, Placed-append,
}

-- A node linked behind the last one.
module _ (first : ℕ) (m : Memory) (q : Queue) (cells : Cells) (x elem : ℕ)
    (r : Ring first m q cells x) where
  unfoldable pub linked : Memory
  linked = write (allocate_node elem r.head m) q.tail (some (link_node x m.fresh))

  pub link_behind-eq : link_behind elem q.tail m ≡ some (m.fresh, linked)
  unfolding link_behind linked
  link_behind-eq =
      let test : (q.tail == 0) ≡ false = ground (arith, r.not_null, r.tail_placed) in
      let old : (q.tail == m.fresh) ≡ false = ground (arith, r.tail_placed) in
      let same : (q.tail == q.tail) ≡ true = ground (arith) in rw (test, r.last, old, same) refl

  -- What was allocated elsewhere is as it was.
  pub linked-same : (a : ℕ) → a ≢ q.tail → a < m.fresh → linked.cell a ≡ m.cell a
  unfolding linked
  linked-same a apart old = ground (arith, apart, old)

  pub linked-Ring :
      (n : ℕ)
      → Ring first linked (record { tail = m.fresh; size = n }) (cells ++ ((q.tail, x) ∷ [])) elem
  unfolding linked
  linked-Ring n = record {
    head = r.head;
    links =
        Links-append linked.cell r.head q.tail m.fresh x cells
          (Links-same m.cell linked.cell r.head q.tail cells
            (λ a. (a ≢ q.tail) × (first ≤ a) × (a < m.fresh)) (λ a h. ground (arith, h))
            (Placed-All first m.fresh q.tail cells r.placed r.apart) r.links)
          (ground arith);
    last = ground (arith, r.tail_placed);
    placed =
        Placed-append first m.fresh q.tail x cells r.placed r.tail_placed.0 r.tail_placed.1 r.apart;
    tail_placed = omega (arith, r.tail_placed);
    apart =
        Avoids-append m.fresh q.tail x cells (λ e. omega (arith, e, r.tail_placed))
          (Avoids-fresh first m.fresh cells r.placed);
    not_null = r.not_null;
  }

-- The first node.
module _ (elem : ℕ) (m : Memory) where
  unfoldable pub single : Memory
  single = write (allocate_node elem 0 m) m.fresh (some (link_node elem m.fresh))

  pub link_first-eq : 0 < m.fresh → link_first elem m ≡ some (m.fresh, single)
  unfolding link_first single
  link_first-eq pos =
      let fresh : (m.fresh == 0) ≡ false = ground (arith, pos) in
      let same : (m.fresh == m.fresh) ≡ true = ground (arith) in rw (fresh, same) refl

  pub single-same : (a : ℕ) → a < m.fresh → single.cell a ≡ m.cell a
  unfolding single
  single-same a old = ground (arith, old)

  pub single-Ring :
      (first n : ℕ)
      → 0 < first
      → first ≤ m.fresh
      → Ring first single (record { tail = m.fresh; size = n }) [] elem
  unfolding single
  single-Ring first n pos le = record {
    head = m.fresh;
    links = refl;
    last = ground arith;
    placed = tt;
    tail_placed = (le, omega arith);
    apart = tt;
    not_null = pos;
  }

-- What a call promises of its result: it does not fail, and the queue holds the elements.
abbrev pub Gives : (first : ℕ) → List ℕ → Option (Queue × Memory) → Type 0
Gives first xs none = ⊥
Gives first xs (some (q, m)) = Holds first m q xs

length-snoc : (xs : List ℕ) (x : ℕ) → length (xs ++ (x ∷ [])) ≡ suc (length xs)
length-snoc [] x = refl
length-snoc (y ∷ xs) x = ap suc (length-snoc xs x)

counted_on :
    (n : ℕ) (xs : List ℕ) (x : ℕ)
    → n ≡ length xs % 2 ^ 32
    → (n + 1) % 2 ^ 32 ≡ length (xs ++ (x ∷ [])) % 2 ^ 32
counted_on n xs x e = rw (length-snoc xs x, e) ground (arith)

pub push-Gives :
    (first elem : ℕ) (q : Queue) (m : Memory) (xs : List ℕ)
    → Holds first m q xs
    → Gives first (xs ++ (elem ∷ [])) (push elem q m)
unfolding push single linked
push-Gives first elem q m xs (counted, bounds, inl (null, none_there)) =
    let size = counted_on q.size xs elem counted in
    let test : (q.tail == 0) ≡ true = ground (arith, null) in
    rw (test, link_first-eq elem m (omega (arith, bounds)))
      (
        size,
        omega (arith, bounds),
        inr (
          [],
          (
            elem,
            single-Ring elem m first _ bounds.0 bounds.1,
            ap (λ ys. ys ++ (elem ∷ [])) none_there,
          ),
        ),
      )
push-Gives first elem q m xs (counted, bounds, inr (cells, (x, r, e))) =
    let size = counted_on q.size xs elem counted in
    let test : (q.tail == 0) ≡ false = ground (arith, r.not_null, r.tail_placed) in
    rw (test, link_behind-eq first m q cells x elem r)
      (
        size,
        omega (arith, bounds),
        inr (
          cells ++ ((q.tail, x) ∷ []),
          (
            elem,
            linked-Ring first m q cells x elem r _,
            ap (λ ys. ys ++ (elem ∷ [])) (e ∙ sym (values-append cells q.tail x)),
          ),
        ),
      )

pop-none : (q : Queue) (m : Memory) → q.tail ≡ 0 → pop q m ≡ some (false, q, m)
unfolding pop
pop-none q m null = ground (arith, null)

-- What pop promises: a removal exactly when there is an element.
abbrev pub GivesPop : (first : ℕ) → List ℕ → Option (Bool × Queue × Memory) → Type 0
GivesPop first xs none = ⊥
GivesPop first xs (some (removed, q, m)) =
    (removed ≡ not (length xs == 0)) × Holds first m q (drop 1 xs)

Avoids-both :
    (a b : ℕ) (cells : Cells)
    → Avoids a cells
    → Avoids b cells
    → All (λ c. (c.0 ≢ a) × (c.0 ≢ b)) cells
Avoids-both a b [] h k = tt
Avoids-both a b ((c, x) ∷ rest) h k = ((h.0, k.0), Avoids-both a b rest h.1 k.1)

-- The first of several nodes taken out.
module _ (first : ℕ) (m : Memory) (q : Queue) (a y next x : ℕ) (rest : Cells) where
  unfoldable pub shorter : Memory
  shorter = write (write m q.tail (some (link_node x next))) a none

  pop-shorter :
      (r : Ring first m q ((a, y) ∷ rest) x)
      → r.head ≡ a
      → m.cell a ≡ some (link_node y next)
      → pop q m ≡ some (true, record q { size = (q.size + 2 ^ 32 - 1) % 2 ^ 32 }, shorter)
  unfolding pop shorter
  pop-shorter r here there =
      let test : (q.tail == 0) ≡ false = ground (arith, r.not_null, r.tail_placed) in
      let head : (a == 0) ≡ false = ground (arith, r.not_null, r.placed) in
      let apart : (a == q.tail) ≡ false = ground (arith, r.apart) in
      rw (test, r.last, here, apart, head, there) (rw (apart, there) refl)

  pub shorter-Ring :
      (n : ℕ) (r : Ring first m q ((a, y) ∷ rest) x)
      → Links m.cell next rest q.tail
      → Ring first shorter (record q { size = n }) rest x
  unfolding shorter
  shorter-Ring n r later = record {
    head = next;
    links =
        Links-same m.cell shorter.cell next q.tail rest (λ b. (b ≢ q.tail) × (b ≢ a))
          (λ b h. ground (arith, h)) (Avoids-both q.tail a rest r.apart.1 r.placed.2) later;
    last = ground (arith, r.apart);
    placed = r.placed.3;
    tail_placed = r.tail_placed;
    apart = r.apart.1;
    not_null = r.not_null;
  }

-- The only node taken out.
module _ (first : ℕ) (m : Memory) (q : Queue) (x : ℕ) (r : Ring first m q [] x) where
  pop-last :
      pop q m
      ≡ some (true, record { tail = 0; size = (q.size + 2 ^ 32 - 1) % 2 ^ 32 }, write m q.tail none)
  unfolding pop
  pop-last =
      let test : (q.tail == 0) ≡ false = ground (arith, r.not_null, r.tail_placed) in
      let same : (q.tail == q.tail) ≡ true = ground (arith) in
      rw (test, r.last, r.links, same) (rw (test, r.last) refl)

counted_off :
    (n : ℕ) (xs : List ℕ)
    → n ≡ suc (length xs) % 2 ^ 32
    → (n + 2 ^ 32 - 1) % 2 ^ 32 ≡ length xs % 2 ^ 32
counted_off n xs e = omega (arith, e)

pub pop-Gives :
    (first : ℕ) (q : Queue) (m : Memory) (xs : List ℕ)
    → Holds first m q xs
    → GivesPop first xs (pop q m)
unfolding shorter
pop-Gives first q m xs (counted, bounds, inl (null, none_there)) =
    let test : pop q m ≡ some (false, q, m) = pop-none q m null in
    rw (none_there, test)
      (refl, (counted ∙ ap (λ ys. length ys % 2 ^ 32) none_there, bounds, inl (null, refl)))
pop-Gives first q m xs (counted, bounds, inr ([], (x, r, e))) =
    let size = counted_off q.size [] (counted ∙ ap (λ ys. length ys % 2 ^ 32) e) in
    rw (e, pop-last first m q x r) (refl, (size, bounds, inl (refl, refl)))
pop-Gives first q m xs (counted, bounds, inr ((a, y) ∷ rest, (x, r, e))) =
    let (here, (next, there, later)) = r.links in
    let size =
      counted_off q.size (values rest ++ (x ∷ [])) (counted ∙ ap (λ ys. length ys % 2 ^ 32) e) in
    rw (e, pop-shorter first m q a y next x rest r here there)
      (
        ground arith,
        (size, bounds, inr (rest, (x, shorter-Ring first m q a y next x rest _ r later, refl))),
      )
