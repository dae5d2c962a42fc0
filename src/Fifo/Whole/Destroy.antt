-- ===== src/Fifo/Whole/Destroy.antt =====
-- data_structure/queue.h: the destructor.
use cpplearn.Common.{
  ℕ, zero, suc, ◌<◌, ◌≡◌, ◌≢◌, refl, sym, ap, ◌∙◌, true, false, Option, none, some, [], ◌∷◌, length,
  ◌==◌, All, arith,
}
use cpplearn.Fifo.{link_node, Memory, Queue, write, empty_queue}
use cpplearn.Fifo.Links.{Cells, Avoids, Ring, load-some}
use cpplearn.Fifo.Ends.{shorter, shorter-Ring}
use cpplearn.Fifo.Whole.{destroy_loop, destroy_queue}

module _ (first : ℕ) (m : Memory) (q : Queue) (a y next x : ℕ) (rest : Cells) where
  shorter-none : (shorter first m q a y next x rest).cell a ≡ none
  unfolding shorter
  shorter-none = ground arith

  shorter-same :
      (b : ℕ) → b ≢ a → b ≢ q.tail → (shorter first m q a y next x rest).cell b ≡ m.cell b
  unfolding shorter
  shorter-same b na nt = ground (arith, na, nt)

All-none :
    (m : Memory) (p : ℕ) (cells : Cells)
    → All (λ c. m.cell c.0 ≡ none) cells
    → All (λ c. (write m p none).cell c.0 ≡ none) cells
All-none m p [] h = tt
All-none m p ((a, x) ∷ rest) h = (ground (arith, h.0), All-none m p rest h.1)

-- A run of the loop that deletes the nodes before the last, which links to itself then.
record Freed (m : Memory) (cells : Cells) (tail x : ℕ) (o : Option Memory) : Type 0 where
  memory : Memory
  result : o ≡ some memory
  last : memory.cell tail ≡ some (link_node x tail)
  same_fresh : memory.fresh ≡ m.fresh
  gone : All (λ c. memory.cell c.0 ≡ none) cells
  others : (b : ℕ) → b ≢ tail → Avoids b cells → memory.cell b ≡ m.cell b

destroy_loop-Freed :
    (first fuel head : ℕ) (m : Memory) (q : Queue) (cells : Cells) (x : ℕ)
    (r : Ring first m q cells x)
    → r.head ≡ head
    → length cells < fuel
    → Freed m cells q.tail x (destroy_loop fuel head q.tail m)
unfolding destroy_loop shorter
destroy_loop-Freed first zero head m q cells x r at_head enough = absurd (omega (arith, enough))
destroy_loop-Freed first (suc fuel) head m q [] x r at_head enough =
    let test : (head == q.tail) ≡ true = ground (arith, at_head, r.links) in
    rw test (record {
      memory = m;
      result = refl;
      last = r.last ∙ ap (λ h. some (link_node x h)) r.links;
      same_fresh = refl;
      gone = tt;
      others = λ b ne avoids. refl;
    })
destroy_loop-Freed first (suc fuel) head m q ((a, y) ∷ rest) x r at_head enough =
    let (here, (next, there, later)) = r.links in
    let at_a : head ≡ a = sym at_head ∙ here in
    let apart : (a == q.tail) ≡ false = ground (arith, r.apart) in
    let pos : 0 < a = omega (arith, r.not_null, r.placed) in
    let tail_pos : 0 < q.tail = omega (arith, r.not_null, r.tail_placed) in
    let m' : Memory = write m q.tail (some (link_node x next)) in
    let m'' : Memory = shorter first m q a y next x rest in
    let r' = shorter-Ring first m q a y next x rest q.size r later in
    let read = load-some a m (link_node y next) pos there in
    let read_tail = load-some q.tail m (link_node x r.head) tail_pos r.last in
    let read_again = load-some a m' (link_node y next) pos (ground (arith, r.apart, there)) in
    let read_tail_again = load-some q.tail m'' (link_node x r'.head) tail_pos r'.last in
    let f = destroy_loop-Freed first fuel r'.head m'' q rest x r' refl (omega (arith, enough)) in
    rw (at_a, apart, read, read_tail, read_again)
      (rw read_tail_again (record {
        memory = f.memory;
        result = f.result;
        last = f.last;
        same_fresh = f.same_fresh;
        gone = (f.others a r.apart.0 r.placed.2 ∙ shorter-none first m q a y next x rest, f.gone);
        others = λ b ne avoids.
            f.others b ne avoids.1
            ∙ shorter-same first m q a y next x rest b (λ e. avoids.0 (sym e)) ne;
      }))

-- The destructor of a queue that is not empty ends, if the fuel is above the number of nodes before the
-- last: every node is deleted, each once and none is read behind its end, no other memory is touched, and
-- the object is empty.
pub destroy_queue-Freed :
    (first fuel : ℕ) (m : Memory) (q : Queue) (cells : Cells) (x : ℕ)
    → Ring first m q cells x
    → length cells < fuel
    → (m' : Memory) × (destroy_queue fuel q m ≡ some (empty_queue, m'))
      × All (λ c. m'.cell c.0 ≡ none) cells
      × (m'.cell q.tail ≡ none)
      × (m'.fresh ≡ m.fresh)
      × ((b : ℕ) → b ≢ q.tail → Avoids b cells → m'.cell b ≡ m.cell b)
unfolding destroy_queue
destroy_queue-Freed first fuel m q cells x r enough =
    let test : (q.tail == 0) ≡ false = ground (arith, r.not_null, r.tail_placed) in
    let tail_pos : 0 < q.tail = omega (arith, r.not_null, r.tail_placed) in
    let f = destroy_loop-Freed first fuel r.head m q cells x r refl enough in
    let read = load-some q.tail m (link_node x r.head) tail_pos r.last in
    let read_again = load-some q.tail f.memory (link_node x q.tail) tail_pos f.last in
    rw (test, read, f.result, read_again)
      (
        write f.memory q.tail none,
        refl,
        All-none f.memory q.tail cells f.gone,
        ground arith,
        f.same_fresh,
        λ b ne avoids. ground (arith, ne) ∙ f.others b ne avoids,
      )
