-- ===== src/Retry.antt =====
-- unp/unpv13e/lib/rtt.c and rtt/dg_send_recv.c: a request over UDP that is sent again when no reply
-- comes in time. The arithmetic of float is a parameter, with
-- one type for float and double.
pub mod Bounds
pub mod Sent
use cpplearn.Common.{
  ℕ, zero, suc, ◌+◌, ◌-◌, ◌*◌, ◌/◌, ◌%◌, ◌^◌, Bool, true, false, not, ◌||◌, Option, none, some,
  List, [], ◌∷◌, if◌then◌else◌, ◌==◌, ltb,
}

-- What the estimators use of float and double on natural constants.
pub record Floats (F : Type 0) : Type 0 where
  pub constant : ℕ → F
  pub plus : F → F → F
  pub minus : F → F → F
  pub times : F → F → F
  pub over : F → F → F
  pub less : F → F → Bool

pub record Time : Type 0 where
  pub tv_sec : ℕ
  pub tv_usec : ℕ

abbrev pub rtt_maxnrexmt : ℕ
rtt_maxnrexmt = 3

pub record RttInfo (F : Type 0) : Type 0 where
  pub rtt_rtt : F
  pub rtt_srtt : F
  pub rtt_rttvar : F
  pub rtt_rto : F
  pub rtt_nrexmt : ℕ
  pub rtt_base : ℕ

-- `sendhdr` and `recvhdr`
pub record Header : Type 0 where
  pub seq : ℕ
  pub ts : ℕ

abbrev pub header_of : ℕ → ℕ → Header
header_of seq ts = record { seq = seq; ts = ts }

-- What Recvmsg gives: the size, the header, and when it came.
pub record Datagram : Type 0 where
  pub size : ℕ
  pub header : Header
  pub at : Time

-- What happens from one transmission to the next: when it is sent, and the datagrams that come before
-- the alarm.
pub record Round : Type 0 where
  pub sent_at : Time
  pub arrivals : List Datagram

-- Milliseconds since rtt_init, in 32 bits.
unfoldable pub rtt_ts : ℕ → Time → ℕ
rtt_ts base now = ((now.tv_sec + 2 ^ 32 - base) * 1000 + now.tv_usec / 1000) % 2 ^ 32

-- The static variables, and what was sent, the latest first.
pub record Client (F : Type 0) : Type 0 where
  pub rttinfo : RttInfo F
  pub rttinit : Bool
  pub seq : ℕ
  pub sent : List Header

-- The size of the reply without its header; or -1 with ETIMEDOUT.
pub data Answer (F : Type 0) : Type 0 where
  replied : ℕ → Datagram → Client F → Answer F
  timed_out : Client F → Answer F

-- The loop around Recvmsg: the first datagram that has a header with the number that was sent; `none`
-- if the alarm is first.
unfoldable pub await : ℕ → List Datagram → Option Datagram
await seq [] = none
await seq (d ∷ rest) =
    let later = await seq rest in
    if ltb d.size 8 || not (d.header.seq == seq) then later else some d

module _ (F : Type 0) (floats : Floats F) where
  rtt_rtocalc : RttInfo F → F
  rtt_rtocalc p = floats.plus p.rtt_srtt (floats.times (floats.constant 4) p.rtt_rttvar)

  unfoldable pub rtt_minmax : F → F
  rtt_minmax rto =
      if floats.less rto (floats.constant 2)
      then floats.constant 2
      else if floats.less (floats.constant 60) rto
      then floats.constant 60
      else rto

  unfoldable pub rtt_init : Time → RttInfo F → RttInfo F
  unfolding rtt_rtocalc rtt_minmax
  rtt_init now p =
      let fresh : RttInfo F = record p {
        rtt_base = now.tv_sec % 2 ^ 32;
        rtt_rtt = floats.constant 0;
        rtt_srtt = floats.constant 0;
        rtt_rttvar = floats.over (floats.constant 3) (floats.constant 4);
      } in
      record fresh { rtt_rto = rtt_minmax (rtt_rtocalc fresh) }

  abbrev pub rtt_newpack : RttInfo F → RttInfo F
  rtt_newpack p = record p { rtt_nrexmt = 0 }

  -- |delta|
  magnitude : F → F
  magnitude delta =
      if floats.less delta (floats.constant 0)
      then floats.minus (floats.constant 0) delta
      else delta

  unfoldable pub rtt_stop : ℕ → RttInfo F → RttInfo F
  unfolding rtt_rtocalc rtt_minmax magnitude
  rtt_stop ms p =
      let rtt = floats.over (floats.constant ms) (floats.constant 1000) in
      let delta = floats.minus rtt p.rtt_srtt in
      let var =
        floats.plus p.rtt_rttvar
          (floats.over (floats.minus (magnitude delta) p.rtt_rttvar) (floats.constant 4)) in
      let estimated : RttInfo F = record p {
        rtt_rtt = rtt;
        rtt_srtt = floats.plus p.rtt_srtt (floats.over delta (floats.constant 8));
        rtt_rttvar = var;
      } in
      record estimated { rtt_rto = rtt_minmax (rtt_rtocalc estimated) }

  -- Whether it is time to give up, and the structure.
  abbrev pub rtt_timeout : RttInfo F → Bool × RttInfo F
  rtt_timeout p = (
    ltb rtt_maxnrexmt (p.rtt_nrexmt + 1),
    record p {
      rtt_rto = floats.times p.rtt_rto (floats.constant 2);
      rtt_nrexmt = p.rtt_nrexmt + 1;
    },
  )

  -- A transmission.
  abbrev pub transmit : Round → Client F → Client F
  transmit round c = record c {
    sent = header_of c.seq (rtt_ts c.rttinfo.rtt_base round.sent_at) ∷ c.sent;
  }

  -- The reply `d`; `rtt_ts(&rttinfo) - recvhdr.ts` in 32 bits.
  unfoldable pub take_reply : Datagram → Client F → Answer F
  unfolding rtt_stop
  take_reply d c =
      let ms = (rtt_ts c.rttinfo.rtt_base d.at + 2 ^ 32 - d.header.ts) % 2 ^ 32 in
      replied (d.size - 8) d (record c { rttinfo = rtt_stop ms c.rttinfo })

  abbrev pub give_up : Client F → Answer F
  give_up c = timed_out (record c { rttinit = false })

  -- Behind the wait of one round: a reply, the end, or `sendagain`.
  unfoldable pub after_wait :
      (Client F → Option (Answer F)) → Client F → Option Datagram → Option (Answer F)
  unfolding take_reply
  after_wait send_again c (some d) = some (take_reply d c)
  after_wait send_again c none =
      let c' : Client F = record c { rttinfo = (rtt_timeout c.rttinfo).1 } in
      let again = send_again c' in if (rtt_timeout c.rttinfo).0 then some (give_up c') else again

  -- `sendagain:`, with fuel; `n` is the number of the round.
  unfoldable pub send_again : (ℕ → Round) → (fuel n : ℕ) → Client F → Option (Answer F)
  unfolding after_wait
  send_again rounds zero n c = none
  send_again rounds (suc fuel) n c =
      after_wait (send_again rounds fuel (suc n)) (transmit (rounds n) c)
        (await c.seq (rounds n).arrivals)

  -- `rttinit` is 0 in the first call and behind a timeout.
  unfoldable pub begin_request : Time → Client F → Client F
  unfolding rtt_init
  begin_request now c = record c {
    rttinfo = rtt_newpack (if c.rttinit then c.rttinfo else rtt_init now c.rttinfo);
    rttinit = true;
    seq = (c.seq + 1) % 2 ^ 32;
  }

  unfoldable pub dg_send_recv : Time → (ℕ → Round) → Client F → Option (Answer F)
  unfolding send_again begin_request
  dg_send_recv now rounds c = send_again rounds (suc rtt_maxnrexmt) 0 (begin_request now c)
