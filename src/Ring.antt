-- ===== src/Ring.antt =====
-- recv_engine/rw_ring.h: a ring of pointers between one producer and one consumer, whose indices run
-- on in 32 bits. A pointer is a number, and the null pointer is 0.
pub mod Places
pub mod Queue
use Prim.Native.Nat.{bit_and, ◌∣◌}
use cpplearn.Common.{
  ℕ, zero, suc, ◌+◌, ◌-◌, ◌%◌, ◌^◌, Bool, true, false, not, ◌||◌, Option, none, some, List, [], ◌∷◌,
  get_or, if◌then◌else◌, ◌==◌, ltb, set,
}

pub record RwRing : Type 0 where
  pub size : ℕ
  pub mask : ℕ
  pub cons_indx : ℕ
  pub prod_indx : ℕ
  pub objs : List ℕ

-- `POWEROF2(x)`, for a `size_t`; `x - 1` wraps at 0.
abbrev pub is_power_of_2 : ℕ → Bool
is_power_of_2 x = bit_and ((x + 2 ^ 64 - 1) % 2 ^ 64) x == 0

abbrev pub rte_ring_sz_mask : ℕ
rte_ring_sz_mask = 0x0fff_ffff

-- The memory behind the header, of which no entry is read before it is written.
abbrev pub blank : ℕ → List ℕ
blank zero = []
blank (suc n) = 0 ∷ blank n

-- The Boolean is whether malloc succeeds.
unfoldable pub create_rw_ring : ℕ → Bool → Option RwRing
create_rw_ring count granted =
    if not (is_power_of_2 count) || ltb rte_ring_sz_mask count
    then none
    else if granted
    then some (record {
      size = count;
      mask = (count + 2 ^ 32 - 1) % 2 ^ 32;
      cons_indx = 0;
      prod_indx = 0;
      objs = blank count;
    })
    else none

-- Subtraction and addition in `uint32_t`.
unfoldable pub rw_ring_entries : RwRing → ℕ
rw_ring_entries r = (r.prod_indx + 2 ^ 32 - r.cons_indx) % 2 ^ 32

unfoldable pub rw_ring_free_entries : RwRing → ℕ
rw_ring_free_entries r = (r.size + r.cons_indx + 2 ^ 32 - r.prod_indx) % 2 ^ 32

unfoldable pub rw_ring_sp_enqueue : RwRing → ℕ → Bool × RwRing
rw_ring_sp_enqueue r obj = if rw_ring_free_entries r == 0 then (false, r) else (
  true,
  record r {
    objs = set r.objs (bit_and r.prod_indx r.mask) obj;
    prod_indx = (r.prod_indx + 1) % 2 ^ 32;
  },
)

unfoldable pub rw_ring_sc_dequeue : RwRing → ℕ × RwRing
rw_ring_sc_dequeue r =
    if not (rw_ring_entries r == 0)
    then (
      get_or r.objs (bit_and r.cons_indx r.mask) 0,
      record r { cons_indx = (r.cons_indx + 1) % 2 ^ 32 },
    )
    else (0, r)

-- What a client calls, and what it sees.
pub data Op : Type 0 where
  put : ℕ → Op
  get : Op

pub data Reply : Type 0 where
  accepted : Bool → Reply
  got : ℕ → Reply

unfoldable pub run : RwRing → List Op → List Reply
run r [] = []
run r (put obj ∷ ops) = let (done, r') = rw_ring_sp_enqueue r obj in accepted done ∷ run r' ops
run r (get ∷ ops) = let (obj, r') = rw_ring_sc_dequeue r in got obj ∷ run r' ops
