-- ===== src/Retry/Bounds.antt =====
-- unp/unpv13e/lib/rtt.c: the bounds RTT_RXTMIN and RTT_RXTMAX of the timeout.
use cpplearn.Common.{ℕ, ◌≡◌, refl, Bool, true, false, if◌then◌else◌}
use cpplearn.Retry.{Floats, Time, RttInfo, rtt_minmax, rtt_init, rtt_stop}

module _ (F : Type 0) (floats : Floats F) where
  -- A number from 2 to 60.
  abbrev pub IsTimeout : F → Type 0
  IsTimeout rto =
      (floats.less rto (floats.constant 2) ≡ false) × (floats.less (floats.constant 60) rto ≡ false)

  -- The constants 2 and 60 compare as numbers do.
  abbrev pub HasBounds : Type 0
  HasBounds = IsTimeout (floats.constant 2) × IsTimeout (floats.constant 60)

  IsTimeout-if :
      (b c : Bool) (rto : F)
      → floats.less rto (floats.constant 2) ≡ b
      → floats.less (floats.constant 60) rto ≡ c
      → HasBounds
      → IsTimeout (if b then floats.constant 2 else if c then floats.constant 60 else rto)
  IsTimeout-if true c rto below above h = h.0
  IsTimeout-if false true rto below above h = h.1
  IsTimeout-if false false rto below above h = (below, above)

  rtt_minmax-IsTimeout : (rto : F) → HasBounds → IsTimeout (rtt_minmax F floats rto)
  unfolding rtt_minmax
  rtt_minmax-IsTimeout rto h = IsTimeout-if _ _ rto refl refl h

  -- Whatever was measured, the timeout behind rtt_init and behind rtt_stop is from RTT_RXTMIN to
  -- RTT_RXTMAX, if the arithmetic compares these two constants as numbers.
  pub rtt_stop-IsTimeout :
      (now : Time) (ms : ℕ) (p : RttInfo F)
      → HasBounds
      → IsTimeout (rtt_init F floats now p).rtt_rto × IsTimeout (rtt_stop F floats ms p).rtt_rto
  unfolding rtt_init rtt_stop
  rtt_stop-IsTimeout now ms p h = (rtt_minmax-IsTimeout _ h, rtt_minmax-IsTimeout _ h)
