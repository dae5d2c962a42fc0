-- ===== src/Tests/Retry.antt =====
-- Requests that are sent again, at concrete inputs.
use cpplearn.Common.{
  ℕ, zero, suc, ◌+◌, ◌-◌, ◌*◌, ◌/◌, ◌≡◌, refl, true, Option, none, some, List, [], ◌∷◌, ltb,
}
use cpplearn.Retry.{
  Floats, Time, Header, Datagram, Round, Client, Answer, replied, timed_out, rtt_ts, await,
  take_reply, after_wait, send_again, header_of, begin_request, dg_send_recv,
}
use cpplearn.Retry.Sent.{Answered, dg_send_recv-Answered}

-- The natural numbers stand for float.
abbrev whole_floats : Floats ℕ
whole_floats = record {
  constant = λ n. n;
  plus = λ a b. a + b;
  minus = λ a b. a - b;
  times = λ a b. a * b;
  over = λ a b. a / suc (b - 1);
  less = ltb;
}

abbrev at_second : ℕ → Time
at_second n = record { tv_sec = n; tv_usec = 0 }

abbrev datagram : ℕ → ℕ → ℕ → Datagram
datagram size seq second = record { size = size; header = header_of seq 0; at = at_second second }

-- Nothing comes in the first round; in the others a late reply to request 6, and then one to 7.
abbrev one_late : ℕ → Round
one_late zero = record { sent_at = at_second 100; arrivals = datagram 4 7 100 ∷ [] }
one_late (suc n) = record {
  sent_at = at_second 103;
  arrivals = datagram 20 6 104 ∷ datagram 12 7 104 ∷ [];
}

abbrev sixth : Client ℕ
sixth = record {
  rttinfo = record {
    rtt_rtt = 0;
    rtt_srtt = 0;
    rtt_rttvar = 1;
    rtt_rto = 3;
    rtt_nrexmt = 0;
    rtt_base = 100;
  };
  rttinit = true;
  seq = 6;
  sent = [];
}

abbrev answer_size : Option (Answer ℕ) → ℕ × List Header
answer_size none = (0, [])
answer_size (some (replied n d c)) = (n, c.sent)
answer_size (some (timed_out c)) = (0, c.sent)

two_sent :
    answer_size (dg_send_recv ℕ whole_floats (at_second 100) one_late sixth)
    ≡ (4, header_of 7 3000 ∷ header_of 7 0 ∷ [])
unfolding dg_send_recv send_again begin_request after_wait take_reply await rtt_ts
two_sent = refl

dg_send_recv-Answered_example :
    (a : Answer ℕ) × (dg_send_recv ℕ whole_floats (at_second 100) one_late sixth ≡ some a)
    × Answered ℕ whole_floats one_late 7
        (begin_request ℕ whole_floats (at_second 100) sixth).rttinfo.rtt_base
        []
        a
dg_send_recv-Answered_example = dg_send_recv-Answered ℕ whole_floats (at_second 100) one_late sixth
