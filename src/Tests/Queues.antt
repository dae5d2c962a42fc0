-- ===== src/Tests/Queues.antt =====
-- data_structure/queue.h at concrete inputs.
use cpplearn.Common.{
  ◌≡◌, inr, refl, true, false, none, some, List, [], ◌∷◌, if◌then◌else◌, ◌==◌, arith,
}
use cpplearn.Fifo.Links.{Ring, Holds}
use cpplearn.Fifo.Whole.Assign.{assign_queue-Holds}
use cpplearn.Fifo.Whole.{assign_queue}
use cpplearn.Fifo
use cpplearn.Fifo.Runs

abbrev no_nodes : Fifo.Memory
no_nodes = record { cell = λ a. none; fresh = 1 }

abbrev queue_calls : List Fifo.Op
queue_calls =
    Fifo.push_op 4
    ∷ Fifo.push_op 5
    ∷ Fifo.front_op
    ∷ Fifo.pop_op
    ∷ Fifo.front_op
    ∷ Fifo.back_op
    ∷ Fifo.pop_op
    ∷ Fifo.pop_op
    ∷ []

queue-run_spec_example :
    Fifo.run queue_calls Fifo.empty_queue no_nodes ≡ Fifo.Runs.run_spec queue_calls []
queue-run_spec_example = Fifo.Runs.queue-run_spec no_nodes queue_calls (omega arith)

two_popped :
    Fifo.run queue_calls Fifo.empty_queue no_nodes
    ≡ some (
        Fifo.done
        ∷ Fifo.done
        ∷ Fifo.element 4
        ∷ Fifo.popped true
        ∷ Fifo.element 5
        ∷ Fifo.element 5
        ∷ Fifo.popped true
        ∷ Fifo.popped false
        ∷ [])
unfolding Fifo.run Fifo.push Fifo.front Fifo.pop Fifo.back Fifo.link_first Fifo.link_behind
two_popped = refl

-- 4 at the address 1 and 5 at 2.
abbrev two_nodes : Fifo.Memory
two_nodes = record {
  cell = λ a.
      if a == 1
      then some (Fifo.link_node 4 2)
      else if a == 2
      then some (Fifo.link_node 5 1)
      else none;
  fresh = 3;
}

abbrev two_queue : Fifo.Queue
two_queue = record { tail = 2; size = 2 }

two-Ring : Ring 1 two_nodes two_queue ((1, 4) ∷ []) 5
two-Ring = record {
  head = 1;
  links = (refl, (2, refl, refl));
  last = refl;
  placed = (omega arith, omega arith, tt, tt);
  tail_placed = omega arith;
  apart = ((λ e. omega (arith, e)), tt);
  not_null = omega arith;
}

two-Holds : Holds 1 two_nodes two_queue (4 ∷ 5 ∷ [])
two-Holds = (refl, omega arith, inr ((1, 4) ∷ [], (5, two-Ring, refl)))

-- 6 alone, at the address 3, beside the two.
abbrev three_nodes : Fifo.Memory
three_nodes = record {
  cell = λ a.
      if a == 1
      then some (Fifo.link_node 4 2)
      else if a == 2
      then some (Fifo.link_node 5 1)
      else if a == 3
      then some (Fifo.link_node 6 3)
      else none;
  fresh = 4;
}

abbrev one_queue : Fifo.Queue
one_queue = record { tail = 3; size = 1 }

one-Ring : Ring 1 three_nodes one_queue [] 6
one-Ring = record {
  head = 3;
  links = refl;
  last = refl;
  placed = tt;
  tail_placed = omega arith;
  apart = tt;
  not_null = omega arith;
}

two-Ring_beside : Ring 1 three_nodes two_queue ((1, 4) ∷ []) 5
two-Ring_beside = record {
  head = 1;
  links = (refl, (2, refl, refl));
  last = refl;
  placed = (omega arith, omega arith, tt, tt);
  tail_placed = omega arith;
  apart = ((λ e. omega (arith, e)), tt);
  not_null = omega arith;
}

assign_queue-Holds_example :
    (assigned : Fifo.Queue) × (m' : Fifo.Memory) × (assign_queue 2 one_queue two_queue three_nodes
      ≡ some (assigned, m'))
    × Holds 4 m' assigned (4 ∷ 5 ∷ [])
assign_queue-Holds_example =
    assign_queue-Holds 1 1 2 one_queue two_queue three_nodes (6 ∷ []) (4 ∷ 5 ∷ [])
      (refl, omega arith, inr ([], (6, one-Ring, refl)))
      (refl, omega arith, inr ((1, 4) ∷ [], (5, two-Ring_beside, refl))) (omega arith) (omega arith)
