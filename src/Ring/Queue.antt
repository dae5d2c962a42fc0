-- ===== src/Ring/Queue.antt =====
-- recv_engine/rw_ring.h: the ring is a queue of bounded length.
use Prim.Native.Nat.{bit_and}
use mathlib.Core.List.{head-eq_of_cons-eq, tail-eq_of_cons-eq}
use native.Mathlib.Nat.{mod-lt}
use cpplearn.Common.{
  ℕ, zero, suc, ◌+◌, ◌-◌, ◌%◌, ◌^◌, ◌≤◌, ◌<◌, ◌≡◌, inl, inr, refl, ◌∙◌, Bool, true, false, not,
  some, List, [], ◌∷◌, ◌++◌, length, get_or, if◌then◌else◌, ◌==◌, ltb, arith, Bool-cases,
  length-append, set, length-set, get_or-set,
}
use cpplearn.Common.Bits.{bit_and-mask, bit_and-pow}
use cpplearn.Ring.Places.{
  objects, pow_bound, mod_wrap, mod_apart, objects_mod, objects_last, objects-set,
}
use cpplearn.Ring.{
  RwRing, blank, is_power_of_2, create_rw_ring, rw_ring_entries, rw_ring_free_entries,
  rw_ring_sp_enqueue, rw_ring_sc_dequeue, Op, put, get, Reply, accepted, got, run,
}

-- The specification: at most `size` objects, the oldest first.
abbrev pub push_spec : ℕ → ℕ → List ℕ → Bool × List ℕ
push_spec size obj q = if ltb (length q) size then (true, q ++ (obj ∷ [])) else (false, q)

abbrev pub pop_spec : List ℕ → ℕ × List ℕ
pop_spec [] = (0, [])
pop_spec (obj ∷ q) = (obj, q)

unfoldable pub run_spec : ℕ → List ℕ → List Op → List Reply
run_spec size q [] = []
run_spec size q (put obj ∷ ops) =
    let (done, q') = push_spec size obj q in accepted done ∷ run_spec size q' ops
run_spec size q (get ∷ ops) = let (obj, q') = pop_spec q in got obj ∷ run_spec size q' ops

-- The ring has `2 ^ k` places, and holds the objects of the queue.
pub record Holds (k : ℕ) (r : RwRing) (q : List ℕ) : Type 0 where
  pub small : k < 28
  pub sized : r.size ≡ 2 ^ k
  pub masked : r.mask ≡ 2 ^ k - 1
  pub room : length r.objs ≡ 2 ^ k
  pub cons_fits : r.cons_indx < 2 ^ 32
  pub prod_at : r.prod_indx ≡ (r.cons_indx + length q) % 2 ^ 32
  pub bounded : length q ≤ 2 ^ k
  pub contents : objects r.objs (2 ^ k) r.cons_indx (length q) ≡ q

-- The counts of the ring are those of the queue.
module _ (k : ℕ) (r : RwRing) (q : List ℕ) (h : Holds k r q) where
  rw_ring_entries-length : rw_ring_entries r ≡ length q
  unfolding rw_ring_entries
  rw_ring_entries-length = omega (arith, h.prod_at, h.cons_fits, h.bounded, pow_bound k h.small)

  rw_ring_free_entries-length : rw_ring_free_entries r ≡ 2 ^ k - length q
  unfolding rw_ring_free_entries
  rw_ring_free_entries-length =
      omega (arith, h.prod_at, h.sized, h.cons_fits, h.bounded, pow_bound k h.small)

  place_in : bit_and r.prod_indx r.mask ≡ (r.cons_indx + length q) % 2 ^ k
  place_in =
      rw (h.masked, bit_and-mask k r.prod_indx, h.prod_at)
        (mod_wrap k (r.cons_indx + length q) h.small)

  place_out : bit_and r.cons_indx r.mask ≡ r.cons_indx % 2 ^ k
  place_out = rw (h.masked) (bit_and-mask k r.cons_indx)

  full_test : (rw_ring_free_entries r == 0) ≡ not (ltb (length q) (2 ^ k))
  full_test = ground (arith, rw_ring_free_entries-length, h.bounded)

  -- The new ring if there is room.
  Holds-append :
      (obj : ℕ)
      → length q < 2 ^ k
      → Holds k
          (record r {
            objs = set r.objs (bit_and r.prod_indx r.mask) obj;
            prod_indx = (r.prod_indx + 1) % 2 ^ 32;
          })
          (q ++ (obj ∷ []))
  Holds-append obj room =
      let j = (r.cons_indx + length q) % 2 ^ k in
      let within : j < length r.objs =
        omega (arith, mod-lt (r.cons_indx + length q) (pow_bound k h.small).0, h.room) in
      let more : length (q ++ (obj ∷ [])) ≡ suc (length q) =
        omega (arith, length-append q (obj ∷ [])) in
      let kept =
        objects-set r.objs (2 ^ k) (length q) r.cons_indx j obj within
          (λ i lt. mod_apart (2 ^ k) r.cons_indx i (length q) lt room) in
      let new : get_or (set r.objs j obj) j 0 ≡ obj = ground (arith, get_or-set r.objs j j obj 0) in
      let all : objects (set r.objs j obj) (2 ^ k) r.cons_indx (suc (length q)) ≡ q ++ (obj ∷ []) =
        rw (objects_last (set r.objs j obj) (2 ^ k) (length q) r.cons_indx, kept, new, h.contents)
          refl in
      record {
        small = h.small;
        sized = h.sized;
        masked = h.masked;
        cons_fits = h.cons_fits;
        room = rw (length-set) h.room;
        prod_at = rw more (omega (arith, h.prod_at));
        bounded = rw more (omega (arith, room));
        contents = rw (place_in, more) all;
      }

  rw_ring_sp_enqueue-Holds :
      (obj : ℕ)
      → ((rw_ring_sp_enqueue r obj).0 ≡ (push_spec (2 ^ k) obj q).0)
        × Holds k (rw_ring_sp_enqueue r obj).1 (push_spec (2 ^ k) obj q).1
  unfolding rw_ring_sp_enqueue
  rw_ring_sp_enqueue-Holds obj = elim (Bool-cases (ltb (length q) (2 ^ k))) [
    | inl has_room ↦ rw (full_test, has_room) (refl, Holds-append obj (ground (arith, has_room)))
    | inr none_left ↦ rw (full_test, none_left) (refl, h)
  ]

rw_ring_sc_dequeue-Holds :
    (k : ℕ) (r : RwRing) (q : List ℕ)
    → Holds k r q
    → ((rw_ring_sc_dequeue r).0 ≡ (pop_spec q).0) × Holds k (rw_ring_sc_dequeue r).1 (pop_spec q).1
unfolding rw_ring_sc_dequeue
rw_ring_sc_dequeue-Holds k r [] h =
    let empty : (rw_ring_entries r == 0) ≡ true = ground (arith, rw_ring_entries-length k r [] h) in
    rw empty (refl, h)
rw_ring_sc_dequeue-Holds k r (obj ∷ q) h =
    let some_left : (rw_ring_entries r == 0) ≡ false =
      ground (arith, rw_ring_entries-length k r (obj ∷ q) h) in
    let first : get_or r.objs (bit_and r.cons_indx r.mask) 0 ≡ obj =
      rw (place_out k r (obj ∷ q) h) (head-eq_of_cons-eq h.contents) in
    let next : (r.cons_indx + 1) % 2 ^ 32 % 2 ^ k ≡ (r.cons_indx + 1) % 2 ^ k =
      mod_wrap k (r.cons_indx + 1) h.small in
    rw some_left (
      first,
      record {
        small = h.small;
        sized = h.sized;
        masked = h.masked;
        room = h.room;
        cons_fits = omega arith;
        prod_at = omega (arith, h.prod_at);
        bounded = omega (arith, h.bounded);
        contents = objects_mod r.objs (2 ^ k) (length q) _ _ next ∙ tail-eq_of_cons-eq h.contents;
      },
    )

-- From a ring that holds a queue on, every call answers as the queue does.
run-run_spec :
    (k : ℕ) (ops : List Op) (r : RwRing) (q : List ℕ)
    → Holds k r q
    → run r ops ≡ run_spec (2 ^ k) q ops
unfolding run run_spec
run-run_spec k [] r q h = refl
run-run_spec k (put obj ∷ ops) r q h =
    let (same, h') = rw_ring_sp_enqueue-Holds k r q h obj in
    let rest = run-run_spec k ops (rw_ring_sp_enqueue r obj).1 (push_spec (2 ^ k) obj q).1 h' in
    rw (same, rest) refl
run-run_spec k (get ∷ ops) r q h =
    let (same, h') = rw_ring_sc_dequeue-Holds k r q h in
    let rest = run-run_spec k ops (rw_ring_sc_dequeue r).1 (pop_spec q).1 h' in rw (same, rest) refl

length-blank : (n : ℕ) → length (blank n) ≡ n
length-blank zero = refl
length-blank (suc n) = omega (arith, length-blank n)

module _ (k : ℕ) (small : k < 28) where
  is_power_of_2-pow : is_power_of_2 (2 ^ k) ≡ true
  is_power_of_2-pow =
      let below : (2 ^ k + 2 ^ 64 - 1) % 2 ^ 64 ≡ 2 ^ k - 1 = omega (arith, pow_bound k small) in
      rw (below, bit_and-pow k) refl

  created : RwRing
  created = record {
    size = 2 ^ k;
    mask = (2 ^ k + 2 ^ 32 - 1) % 2 ^ 32;
    cons_indx = 0;
    prod_indx = 0;
    objs = blank (2 ^ k);
  }

  create_rw_ring-eq : create_rw_ring (2 ^ k) true ≡ some created
  unfolding create_rw_ring created
  create_rw_ring-eq =
      let within : ltb 0x0fff_ffff (2 ^ k) ≡ false = ground (arith, pow_bound k small) in
      rw (is_power_of_2-pow, within) refl

  created-Holds : Holds k created []
  unfolding created
  created-Holds = record {
    small = small;
    sized = refl;
    masked = omega (arith, pow_bound k small);
    room = length-blank (2 ^ k);
    cons_fits = omega arith;
    prod_at = refl;
    bounded = omega arith;
    contents = refl;
  }

-- A ring for any power of two below the limit can be created if memory is granted; and whatever its
-- client puts and gets, in any order, however often the indices wrap, every reply is that of a queue
-- of at most that many objects.
pub rw_ring-run_spec :
    (k : ℕ) (ops : List Op)
    → k < 28
    → (r : RwRing) × (create_rw_ring (2 ^ k) true ≡ some r) × (run r ops ≡ run_spec (2 ^ k) [] ops)
rw_ring-run_spec k ops small = (
  created k small,
  create_rw_ring-eq k small,
  run-run_spec k ops (created k small) [] (created-Holds k small),
)
