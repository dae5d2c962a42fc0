-- ===== src/Icmp/Trace/Rounds.antt =====
-- unp/unpv13e/traceroute/traceloop.c: what is sent, and where the loop ends.
use native.Mathlib.Nat.{suc-mul}
use cpplearn.Common.{
  if_keeps, ℕ, zero, suc, ◌+◌, ◌-◌, ◌*◌, ◌%◌, ◌^◌, ◌≤◌, ◌<◌, ◌≡◌, ◌⊎◌, inl, inr, refl, sym, ap, ◌∙◌,
  true, false, List, [], ◌∷◌, ◌++◌, append_assoc, append-nil, codes, ◌==◌, arith, Bool-cases,
}
use cpplearn.Icmp.Trace.{
  Code, Sent, is_reached, Round, send_probe, send_probes, ttl_loop, traceloop,
}

module _ (dport : ℕ) (codes : ℕ → Code) (nprobes : ℕ) where
  -- The probe with a sequence number.
  abbrev pub probe_of : ℕ → ℕ → Sent
  probe_of ttl seq = record {
    rec_ttl = ttl;
    rec_seq = seq % 2 ^ 16;
    to_port = (dport + seq) % 2 ^ 16;
  }

  -- The `n` probes behind `seq`, and those of the first `k` values of the TTL.
  abbrev pub probes_of : ℕ → ℕ → ℕ → List Sent
  probes_of ttl seq zero = []
  probes_of ttl seq (suc n) = probes_of ttl seq n ++ (probe_of ttl (seq + n + 1) ∷ [])

  abbrev pub rounds_of : ℕ → List Sent
  rounds_of zero = []
  rounds_of (suc k) = rounds_of k ++ probes_of (k + 1) (k * nprobes) nprobes

  -- No probe up to a number has reached the target, or one has.
  abbrev pub Misses : ℕ → Type 0
  Misses n = (seq : ℕ) → 0 < seq → seq ≤ n → is_reached (codes seq) ≡ false

  abbrev pub Hits : ℕ → Type 0
  Hits n = (seq : ℕ) × (0 < seq) × (seq ≤ n) × (is_reached (codes seq) ≡ true)

  -- Behind `m` probes of a round.
  record IsAt (k m : ℕ) (r : Round) : Type 0 where
    seq : r.seq ≡ k * nprobes + m
    sent : r.sent ≡ rounds_of k ++ probes_of (k + 1) (k * nprobes) m
    done : ((r.done ≡ 0) × Misses r.seq) ⊎ ((0 < r.done) × Hits r.seq)

  send_probe-done :
      (ttl : ℕ) (r : Round)
      → ((r.done ≡ 0) × Misses r.seq) ⊎ ((0 < r.done) × Hits r.seq)
      → (((send_probe dport codes ttl r).done ≡ 0) × Misses (r.seq + 1))
        ⊎ ((0 < (send_probe dport codes ttl r).done) × Hits (r.seq + 1))
  unfolding send_probe
  send_probe-done ttl r (inr (more, (s, a, b, c))) = inr (ground arith, (s, a, omega (arith, b), c))
  send_probe-done ttl r (inl (undone, miss)) = elim (Bool-cases (is_reached (codes (r.seq + 1)))) [
    | inl e ↦ rw e (inr (omega arith, (r.seq + 1, omega arith, omega arith, e)))
    | inr e ↦ rw e (inl (undone, λ s a b. missed s a b e))
  ]
    where
      missed :
          (s : ℕ)
          → 0 < s
          → s ≤ r.seq + 1
          → is_reached (codes (r.seq + 1)) ≡ false
          → is_reached (codes s) ≡ false
      missed s a b e = elim (Bool-cases (s == r.seq + 1)) [
        | inl k ↦ ap (λ x. is_reached (codes x)) (ground (arith, k)) ∙ e
        | inr k ↦ miss s a (ground (arith, k, b))
      ]

  send_probe-seq : (ttl : ℕ) (r : Round) → (send_probe dport codes ttl r).seq ≡ r.seq + 1
  unfolding send_probe
  send_probe-seq ttl r = refl

  send_probe-sent :
      (ttl : ℕ) (r : Round)
      → (send_probe dport codes ttl r).sent ≡ r.sent ++ (probe_of ttl (r.seq + 1) ∷ [])
  unfolding send_probe
  send_probe-sent ttl r = refl

  send_probe-IsAt :
      (k m : ℕ) (r : Round) → IsAt k m r → IsAt k (suc m) (send_probe dport codes (k + 1) r)
  send_probe-IsAt k m r h = record {
    seq = send_probe-seq (k + 1) r ∙ omega (arith, h.seq);
    sent =
        send_probe-sent (k + 1) r
        ∙ rw (h.sent, h.seq)
            (append_assoc (rounds_of k) (probes_of (k + 1) (k * nprobes) m)
              (probe_of (k + 1) (k * nprobes + m + 1) ∷ []));
    done = rw (send_probe-seq (k + 1) r) (send_probe-done (k + 1) r h.done);
  }

  send_probes-IsAt :
      (n k m : ℕ) (r : Round) → IsAt k m r → IsAt k (m + n) (send_probes dport codes (k + 1) n r)
  unfolding send_probes
  send_probes-IsAt zero k m r h = let same : m + 0 ≡ m = omega arith in rw same h
  send_probes-IsAt (suc n) k m r h =
      let one : m + suc n ≡ suc m + n = omega arith in
      rw one
        (send_probes-IsAt n k (suc m) (send_probe dport codes (k + 1) r) (send_probe-IsAt k m r h))

  -- A whole round.
  next_round :
      (k : ℕ) (r : Round) → IsAt k 0 r → IsAt (suc k) 0 (send_probes dport codes (k + 1) nprobes r)
  next_round k r h =
      let g : IsAt k (0 + nprobes) (send_probes dport codes (k + 1) nprobes r) =
        send_probes-IsAt nprobes k 0 r h in
      let all : 0 + nprobes ≡ nprobes = omega arith in
      record {
        seq = g.seq ∙ omega (arith, suc-mul k nprobes);
        sent = g.sent ∙ rw all (sym (append-nil (rounds_of (suc k))));
        done = g.done;
      }

  -- Where the loop ends: behind the first round in which a probe has reached the target, or behind
  -- the last.
  abbrev pub Ends : ℕ → Round → Type 0
  Ends max_ttl r =
      (k : ℕ) × (k ≤ max_ttl)
      × (r.sent ≡ rounds_of k)
      × Misses ((k - 1) * nprobes)
      × (k < max_ttl → Hits (k * nprobes))

  round_before : (k : ℕ) → (suc k - 1) * nprobes ≡ k * nprobes
  round_before k = ap (λ i. i * nprobes) (omega arith)

  clear : (k : ℕ) (r : Round) → IsAt k 0 r → r.done ≡ 0 → Misses (k * nprobes)
  clear k r h e = elim h.done [
    | inl (undone, miss) ↦ λ s a b. miss s a (omega (arith, b, h.seq))
    | inr (more, hit) ↦ absurd (omega (arith, more, e))
  ]

  reached_by : (k : ℕ) (r : Round) → IsAt k 0 r → 0 < r.done → Hits (k * nprobes)
  reached_by k r h e = elim h.done [
    | inl (undone, miss) ↦ absurd (omega (arith, undone, e))
    | inr (more, (s, a, b, c)) ↦ (s, a, omega (arith, b, h.seq), c)
  ]

  Ends-at : (m n : ℕ) (r : Round) → m ≡ n → Ends m r → Ends n r
  Ends-at m n r e h = rw (sym e) h

  ttl_loop-Ends :
      (left k : ℕ) (r : Round)
      → IsAt k 0 r
      → Misses ((k - 1) * nprobes)
      → Ends (k + left) (ttl_loop dport codes nprobes (k + 1) left r)
  unfolding ttl_loop
  ttl_loop-Ends zero k r h miss =
      (k, omega arith, h.sent ∙ append-nil (rounds_of k), miss, λ lt. absurd (omega (arith, lt)))
  ttl_loop-Ends (suc left) k r h miss =
      if_keeps (Ends (k + suc left)) (r.done == 0) _ r
        (λ e.
          let one : k + suc left ≡ suc k + left = omega arith in
          let two : k + 1 + 1 ≡ suc k + 1 = omega arith in
          rw (one, two)
            (ttl_loop-Ends left (suc k) (send_probes dport codes (k + 1) nprobes r)
              (next_round k r h)
              (λ s a b. clear k r h (ground (arith, e)) s a (omega (arith, b, round_before k)))))
        (λ e. (
          k,
          omega arith,
          h.sent ∙ append-nil (rounds_of k),
          miss,
          λ lt. reached_by k r h (ground (arith, e)),
        ))

-- traceloop sends, for each value of the TTL from 1 on, `nprobes` probes, numbered from 1 on in their
-- order and each to the port behind `dport` by its number; it ends behind the first value at which
-- some probe reached the target, or behind `max_ttl`.
pub traceloop-Ends :
    (dport : ℕ) (codes : ℕ → Code) (nprobes max_ttl : ℕ)
    → Ends dport codes nprobes max_ttl (traceloop dport codes nprobes max_ttl)
unfolding traceloop
traceloop-Ends dport codes nprobes max_ttl =
    let first : Round = record { seq = 0; done = 0; sent = [] } in
    let h : IsAt dport codes nprobes 0 0 first = record {
      seq = omega arith;
      sent = refl;
      done = inl (refl, λ s a b. absurd (omega (arith, a, b)));
    } in
    Ends-at dport codes nprobes (0 + max_ttl) max_ttl (ttl_loop dport codes nprobes 1 max_ttl first)
      (omega arith)
      (ttl_loop-Ends dport codes nprobes max_ttl 0 first h (λ s a b. absurd (omega (arith, a, b))))
