-- ===== src/Fifo.antt =====
-- data_structure/queue.h: a queue as a ring of linked nodes, with natural numbers for its elements.
-- The nodes stand at addresses of a memory; a read through the null pointer, or of a node that was
-- deleted, is `none`.
pub mod Links
pub mod Ends
pub mod Runs
pub mod Whole
use cpplearn.Common.Decimal.{decimal}
use cpplearn.Common.{
  ℕ, suc, ◌+◌, ◌-◌, ◌%◌, ◌^◌, Bool, true, false, Option, none, some, List, [], ◌∷◌, if◌then◌else◌,
  ◌==◌,
}

pub record LinkNode : Type 0 where
  pub data_of : ℕ
  pub next : ℕ

abbrev pub link_node : ℕ → ℕ → LinkNode
link_node val n = record { data_of = val; next = n }

-- `fresh` is an address from which on nothing was allocated yet; 0 is the null pointer.
pub record Memory : Type 0 where
  pub cell : ℕ → Option LinkNode
  pub fresh : ℕ

pub record Queue : Type 0 where
  pub tail : ℕ
  pub size : ℕ

infixl 5 ◌>>=◌
abbrev pub ◌>>=◌ {ℓ κ} : {A : Type ℓ} {B : Type κ} → Option A → (A → Option B) → Option B
none >>= f = none
some a >>= f = f a

abbrev pub write : Memory → ℕ → Option LinkNode → Memory
write m p c = record m { cell = λ a. if a == p then c else m.cell a }

-- `new LinkNode(val, n)` at `m.fresh`; a failure ends the process.
abbrev pub allocate_node : ℕ → ℕ → Memory → Memory
allocate_node val n m = record {
  cell = λ a. if a == m.fresh then some (link_node val n) else m.cell a;
  fresh = suc m.fresh;
}

-- `*p`
unfoldable pub load : ℕ → Memory → Option LinkNode
load p m = if p == 0 then none else m.cell p

-- `p->next = n`
abbrev pub set_next : ℕ → ℕ → Memory → Option Memory
set_next p n m = load p m >>= λ old. some (write m p (some (record old { next = n })))

abbrev pub delete_node : ℕ → Memory → Option Memory
delete_node p m = load p m >>= λ old. some (write m p none)

abbrev pub empty_queue : Queue
empty_queue = record { tail = 0; size = 0 }

abbrev pub is_empty : Queue → Bool
is_empty q = q.tail == 0

-- `m_tail->next = new LinkNode(elem, m_tail->next); m_tail = m_tail->next;`
unfoldable pub link_behind : ℕ → ℕ → Memory → Option (ℕ × Memory)
unfolding load
link_behind elem tail m = load tail m >>= λ t.
    set_next tail m.fresh (allocate_node elem t.next m) >>= λ m'.
    load tail m' >>= λ t'. some (t'.next, m')

-- `m_tail = new LinkNode(elem); m_tail->next = m_tail;`
unfoldable pub link_first : ℕ → Memory → Option (ℕ × Memory)
unfolding load
link_first elem m = set_next m.fresh m.fresh (allocate_node elem 0 m) >>= λ m'. some (m.fresh, m')

unfoldable pub push : ℕ → Queue → Memory → Option (Queue × Memory)
push elem q m = (if is_empty q then link_first elem m else link_behind elem q.tail m) >>= λ linked.
    some (record { tail = linked.0; size = (q.size + 1) % 2 ^ 32 }, linked.1)

unfoldable pub unlink : ℕ → Queue → Memory → Option (Queue × Memory)
unfolding load
unlink head q m =
    if head == q.tail
    then some (record q { tail = 0 }, m)
    else load head m >>= λ h. set_next q.tail h.next m >>= λ m'. some (q, m')

-- The Boolean is what pop returns.
unfoldable pub pop : Queue → Memory → Option (Bool × Queue × Memory)
unfolding load unlink
pop q m =
    if is_empty q
    then some (false, q, m)
    else load q.tail m >>= λ t. unlink t.next q m >>= λ unlinked.
        delete_node t.next unlinked.1 >>= λ m'.
        some (true, record unlinked.0 { size = (q.size + 2 ^ 32 - 1) % 2 ^ 32 }, m')

unfoldable pub front : Queue → Memory → Option ℕ
unfolding load
front q m = load q.tail m >>= λ t. load t.next m >>= λ h. some h.data_of

unfoldable pub back : Queue → Memory → Option ℕ
unfolding load
back q m = load q.tail m >>= λ t. some t.data_of

pub data Op : Type 0 where
  push_op : ℕ → Op
  pop_op : Op
  front_op : Op
  back_op : Op
  empty_op : Op
  size_op : Op

pub data Reply : Type 0 where
  done : Reply
  popped : Bool → Reply
  element : ℕ → Reply
  answered : Bool → Reply
  size_is : ℕ → Reply

unfoldable pub call : Op → Queue → Memory → Option (Reply × Queue × Memory)
call (push_op x) q m = push x q m >>= λ r. some (done, r.0, r.1)
call pop_op q m = pop q m >>= λ r. some (popped r.0, r.1, r.2)
call front_op q m = front q m >>= λ x. some (element x, q, m)
call back_op q m = back q m >>= λ x. some (element x, q, m)
call empty_op q m = some (answered (is_empty q), q, m)
call size_op q m = some (size_is q.size, q, m)

-- The calls one after another, with the answer of each.
unfoldable pub run : List Op → Queue → Memory → Option (List Reply)
unfolding call
run [] q m = some []
run (op ∷ ops) q m = call op q m >>= λ r. run ops r.1 r.2 >>= λ rs. some (r.0 ∷ rs)
