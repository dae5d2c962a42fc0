-- ===== src/Retry/Sent.antt =====
-- unp/unpv13e/rtt/dg_send_recv.c: what is sent, how often, and what counts as the reply.
use cpplearn.Common.{
  ℕ, zero, suc, ◌+◌, ◌-◌, ◌%◌, ◌^◌, ◌≤◌, ◌<◌, ◌≡◌, ◌⊎◌, inl, inr, refl, Bool, true, false, not,
  ◌||◌, Option, none, some, List, [], ◌∷◌, ◌++◌, if◌then◌else◌, ◌==◌, ltb, arith,
}
use mathlib.Core.Path.{subst, sym}
use cpplearn.Retry.{
  Floats, Time, Header, Datagram, Round, Client, Answer, replied, timed_out, rtt_ts, await,
  transmit, header_of, take_reply, after_wait, send_again, begin_request, dg_send_recv,
}

-- The headers of the first `k` transmissions, the latest first.
abbrev pub headers : (ℕ → Round) → (seq base k : ℕ) → List Header
headers rounds seq base zero = []
headers rounds seq base (suc k) =
    header_of seq (rtt_ts base (rounds k).sent_at) ∷ headers rounds seq base k

-- A datagram that holds a header with the number.
abbrev pub IsReply : ℕ → Datagram → Type 0
IsReply seq d = (8 ≤ d.size) × (d.header.seq ≡ seq)

-- The first reply of a list; or none of them is one.
abbrev pub First : ℕ → List Datagram → Option Datagram → Type 0
First seq [] none = Unit
First seq [] (some d) = ⊥
First seq (a ∷ rest) none = (IsReply seq a → ⊥) × First seq rest none
First seq (a ∷ rest) (some d) =
    (IsReply seq a × (a ≡ d)) ⊎ ((IsReply seq a → ⊥) × First seq rest (some d))

First-skip :
    (seq : ℕ) (a : Datagram) (rest : List Datagram) (o : Option Datagram)
    → (IsReply seq a → ⊥)
    → First seq rest o
    → First seq (a ∷ rest) o
First-skip seq a rest none other_one h = (other_one, h)
First-skip seq a rest (some d) other_one h = inr (other_one, h)

First-if :
    (seq : ℕ) (b : Bool) (a : Datagram) (rest : List Datagram) (o : Option Datagram)
    → (b ≡ true → IsReply seq a → ⊥)
    → (b ≡ false → IsReply seq a)
    → First seq rest o
    → First seq (a ∷ rest) (if b then o else some a)
First-if seq true a rest o fails holds h = First-skip seq a rest o (fails refl) h
First-if seq false a rest o fails holds h = inl (holds refl, refl)

-- The wait ends with the first datagram that holds a header with the number, and with the alarm if
-- no datagram of the round does.
pub await-First : (seq : ℕ) (arrivals : List Datagram) → First seq arrivals (await seq arrivals)
unfolding await
await-First seq [] = tt
await-First seq (a ∷ rest) =
    First-if seq (ltb a.size 8 || not (a.header.seq == seq)) a rest (await seq rest)
      (λ skipped reply. ground (arith, skipped, reply.0, reply.1)) (λ kept. ground (arith, kept))
      (await-First seq rest)

-- No datagram of the first `k` rounds is a reply.
abbrev pub Silent : (ℕ → Round) → (seq k : ℕ) → Type 0
Silent rounds seq zero = Unit
Silent rounds seq (suc k) = First seq (rounds k).arrivals none × Silent rounds seq k

module _ (F : Type 0) (floats : Floats F) where
  -- The answer to a request with the number `seq`: a reply in one of the first four rounds, with all
  -- rounds before it silent; or the end behind four silent rounds. Each round sent one datagram.
  abbrev pub Answered : (ℕ → Round) → (seq base : ℕ) → List Header → Answer F → Type 0
  Answered rounds seq base old (replied n d c) =
      (k : ℕ) × (k < 4)
      × Silent rounds seq k
      × First seq (rounds k).arrivals (some d)
      × (n ≡ d.size - 8)
      × (c.sent ≡ headers rounds seq base (suc k) ++ old)
  Answered rounds seq base old (timed_out c) =
      Silent rounds seq 4 × (c.sent ≡ headers rounds seq base 4 ++ old) × (c.rttinit ≡ false)

  Gives : (ℕ → Round) → (seq base : ℕ) → List Header → Option (Answer F) → Type 0
  Gives rounds seq base old none = ⊥
  Gives rounds seq base old (some a) = Answered rounds seq base old a

  -- Behind `n` silent rounds, with fuel for the others.
  record Going (rounds : ℕ → Round) (seq base : ℕ) (old : List Header) (n : ℕ) (c : Client F)
      : Type 0 where
    number : c.seq ≡ seq
    started : c.rttinfo.rtt_base ≡ base
    tried : c.rttinfo.rtt_nrexmt ≡ n
    silence : Silent rounds seq n
    log : c.sent ≡ headers rounds seq base n ++ old

  transmit_log :
      (rounds : ℕ → Round) (seq base : ℕ) (old : List Header) (n : ℕ) (c : Client F)
      → Going rounds seq base old n c
      → (transmit F floats (rounds n) c).sent ≡ headers rounds seq base (suc n) ++ old
  transmit_log rounds seq base old n c g = rw (g.number, g.started, g.log) refl

  after_wait-Gives :
      (rounds : ℕ → Round) (seq base : ℕ) (old : List Header) (fuel n : ℕ) (c : Client F)
      (o : Option Datagram)
      → n + suc fuel ≡ 4
      → Going rounds seq base old n c
      → First seq (rounds n).arrivals o
      → ((d : Client F)
          → suc n + fuel ≡ 4
          → suc n < 4
          → Going rounds seq base old (suc n) d
          → Gives rounds seq base old (send_again F floats rounds fuel (suc n) d))
      → Gives rounds seq base old (
          after_wait F floats
            (send_again F floats rounds fuel (suc n))
            (transmit F floats (rounds n) c)
            o)
  unfolding after_wait take_reply Gives
  after_wait-Gives rounds seq base old fuel n c (some d) e g w ih =
      (n, omega (arith, e), g.silence, w, refl, transmit_log rounds seq base old n c g)
  after_wait-Gives rounds seq base old zero n c none e g w ih =
      let last : ltb 3 (c.rttinfo.rtt_nrexmt + 1) ≡ true = ground (arith, g.tried, e) in
      let fourth : suc n ≡ 4 = omega (arith, e) in
      let silent : Silent rounds seq (suc n) = (w, g.silence) in
      rw last (
        subst (λ k. Silent rounds seq k) fourth silent,
        subst (λ k. (transmit F floats (rounds n) c).sent ≡ headers rounds seq base k ++ old) fourth
            (transmit_log rounds seq base old n c g),
        refl,
      )
  after_wait-Gives rounds seq base old (suc fuel) n c none e g w ih =
      let more : ltb 3 (c.rttinfo.rtt_nrexmt + 1) ≡ false = ground (arith, g.tried, e) in
      rw more (
        ih _ (omega (arith, e)) (omega (arith, e)) (record {
          number = g.number;
          started = g.started;
          tried = omega (arith, g.tried);
          silence = (w, g.silence);
          log = transmit_log rounds seq base old n c g;
        }))

  send_again-Gives :
      (rounds : ℕ → Round) (seq base : ℕ) (old : List Header) (fuel n : ℕ) (c : Client F)
      → n + fuel ≡ 4
      → n < 4
      → Going rounds seq base old n c
      → Gives rounds seq base old (send_again F floats rounds fuel n c)
  unfolding send_again
  send_again-Gives rounds seq base old zero n c e small g = absurd (omega arith)
  send_again-Gives rounds seq base old (suc fuel) n c e small g =
      after_wait-Gives rounds seq base old fuel n c (await c.seq (rounds n).arrivals) e g
        (subst (λ k. First seq (rounds n).arrivals (await k (rounds n).arrivals)) (sym g.number)
          (await-First seq (rounds n).arrivals))
        (λ d e' small' g'. send_again-Gives rounds seq base old fuel (suc n) d e' small' g')

-- A call of dg_send_recv returns, behind four transmissions at most. All carry the next sequence
-- number. If it returns the size of a reply, the reply is the first datagram with a header that has
-- this number, and nothing is sent behind it; if it returns -1, the four transmissions had none.
pub dg_send_recv-Answered :
    (F : Type 0) (floats : Floats F) (now : Time) (rounds : ℕ → Round) (c : Client F)
    → (a : Answer F) × (dg_send_recv F floats now rounds c ≡ some a)
      × Answered F floats rounds
          ((c.seq + 1) % 2 ^ 32)
          (begin_request F floats now c).rttinfo.rtt_base
          c.sent
          a
unfolding dg_send_recv begin_request Gives
dg_send_recv-Answered F floats now rounds c =
    from_Gives (send_again F floats rounds 4 0 (begin_request F floats now c)) (
      send_again-Gives F floats rounds ((c.seq + 1) % 2 ^ 32) _ c.sent 4 0
        (begin_request F floats now c) refl (omega arith) start_going)
  where
    start_going :
        Going F floats rounds
          ((c.seq + 1) % 2 ^ 32)
          (begin_request F floats now c).rttinfo.rtt_base
          c.sent
          0
          (begin_request F floats now c)
    start_going = record { number = refl; started = refl; tried = refl; silence = tt; log = refl }

    from_Gives :
        (o : Option (Answer F))
        → Gives F floats rounds
            ((c.seq + 1) % 2 ^ 32)
            (begin_request F floats now c).rttinfo.rtt_base
            c.sent
            o
        → (a : Answer F) × (o ≡ some a)
          × Answered F floats rounds
              ((c.seq + 1) % 2 ^ 32)
              (begin_request F floats now c).rttinfo.rtt_base
              c.sent
              a
    from_Gives none h = absurd h
    from_Gives (some a) h = (a, refl, h)
