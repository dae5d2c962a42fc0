-- ===== src/Icmp/Daemon/Clients.antt =====
-- unp/unpv13e/icmpd: the clients that an ICMP error is written to.
use mathlib.Core.Path.{subst}
use mathlib.Core.Option.{some-injective}
use cpplearn.Common.{
  if_keeps, ◌≢◌, true, false, ℕ, zero, suc, ◌+◌, ◌≡◌, ◌⊎◌, ◌↔◌, inl, inr, refl, sym, ap, ◌∙◌, ◌&&◌,
  Option, none, some, List, [], ◌∷◌, ◌++◌, map, append-nil, append_assoc, Bytes, length, ◌==◌,
  arith, Bool-cases,
}
use cpplearn.Icmp.{word_at}
use cpplearn.Icmp.Daemon.{
  Client, Handled, quit, write_each, Message, icmp_error, Daemon, errno_of, is_for, found_entry,
  found_clients, handled, address_at, send_errors, pass_error,
}
use cpplearn.Icmp.Daemon.Table.{IsTable}
use cpplearn.Gai.Defs.{af_inet}

found_free :
    (sport : ℕ) (c : Client) (later : List ℕ) (o : Option ℕ)
    → o ≡ none
    → found_entry sport c later o ≡ later
unfolding found_entry
found_free sport c later none e = refl
found_free sport c later (some fd) e = absurd (cc)

-- The loop up to `maxi` finds the clients of the whole table.
found_clients-all :
    (sport used maxfd : ℕ) (cs : List Client)
    → IsTable used maxfd cs
    → found_clients sport used cs ≡ found_clients sport (length cs) cs
unfolding found_clients
found_clients-all sport zero maxfd [] h = refl
found_clients-all sport (suc used) maxfd [] h = refl
found_clients-all sport zero maxfd (c ∷ cs) h =
    found_clients-all sport zero maxfd cs h.1 ∙ sym (found_free sport c _ c.connfd h.0)
found_clients-all sport (suc used) maxfd (c ∷ cs) h =
    ap (λ l. found_entry sport c l c.connfd) (found_clients-all sport used maxfd cs h.1)

abbrev pub In : ℕ → List ℕ → Type 0
In fd [] = ⊥
In fd (x ∷ xs) = (fd ≡ x) ⊎ In fd xs

-- The table has a client with this descriptor that has registered the port for AF_INET.
abbrev pub Listed : ℕ → ℕ → List Client → Type 0
Listed fd sport [] = ⊥
Listed fd sport (c ∷ cs) =
    ((c.connfd ≡ some fd) × (c.family ≡ af_inet) × (c.lport ≡ sport)) ⊎ Listed fd sport cs

found_entry-In :
    (fd sport : ℕ) (c : Client) (later : List ℕ) (o : Option ℕ)
    → In fd (found_entry sport c later o)
      ↔ (((o ≡ some fd) × (c.family ≡ af_inet) × (c.lport ≡ sport)) ⊎ In fd later)
unfolding found_entry is_for
found_entry-In fd sport c later none =
    (λ h. inr h, λ h. elim h [ inl (e, f, g) ↦ absurd (cc) | inr k ↦ k ])
found_entry-In fd sport c later (some fd') =
    elim (Bool-cases (c.family == af_inet && c.lport == sport)) [
      | inl e ↦ rw e (
        λ h. elim h [
          | inl k ↦ inl (ap some (sym k), ground (arith, e), ground (arith, e))
          | inr k ↦ inr k
        ],
        λ h. elim h [ inl (k, f, g) ↦ inl (sym (some-injective fd' fd k)) | inr k ↦ inr k ],
      )
      | inr e ↦
          rw e (
            λ h. inr h,
            λ h. elim h [ inl (k, f, g) ↦ absurd (ground (arith, e, f, g)) | inr k ↦ k ],
          )
    ]

found_clients-Listed :
    (fd sport : ℕ) (cs : List Client)
    → In fd (found_clients sport (length cs) cs) ↔ Listed fd sport cs
unfolding found_clients
found_clients-Listed fd sport [] = (λ h. h, λ h. h)
found_clients-Listed fd sport (c ∷ cs) =
    let (to, back) = found_clients-Listed fd sport cs in
    let (out, into) = found_entry-In fd sport c (found_clients sport (length cs) cs) c.connfd in
    (
      λ h. elim (out h) [ inl k ↦ inl k | inr k ↦ inr (to k) ],
      λ h. elim h [ inl k ↦ into (inl k) | inr k ↦ into (inr (back k)) ],
    )

-- The errno for an ICMP error: ECONNREFUSED for "port unreachable", EMSGSIZE for "fragmentation needed",
-- and else EHOSTUNREACH.
abbrev pub IsErrno : (type code errno : ℕ) → Type 0
IsErrno type code errno =
    (type ≡ 3 → code ≡ 3 → errno ≡ 111)
    × (type ≡ 3 → code ≡ 4 → errno ≡ 90)
    × ((type ≢ 3) ⊎ ((code ≢ 3) × (code ≢ 4)) → errno ≡ 113)

errno_of-IsErrno : (type code : ℕ) → IsErrno type code (errno_of type code)
errno_of-IsErrno type code =
    ((λ h k. ground (arith, h, k)), (λ h k. ground (arith, h, k)), λ h. ground (arith, h))

-- The message is written to all of these descriptors; or a Write to one of them fails and ends the daemon.
abbrev pub Wrote : Daemon → Message → List ℕ → Handled → Type 0
Wrote d m fds (handled d') =
    ((fd : ℕ) → In fd fds → d.write_fails fd ≡ false)
    × (d' ≡ record d { written = d.written ++ map (λ fd. (fd, m)) fds })
Wrote d m fds quit = (fd : ℕ) × In fd fds × (d.write_fails fd ≡ true)

-- struct icmpd_err as it is written.
abbrev pub error_about : (errno type code : ℕ) → Bytes → (dport : ℕ) → Message
error_about errno type code dest dport = icmp_error (record {
  icmpd_errno = errno;
  icmpd_type = type;
  icmpd_code = code;
  sin_addr = dest;
  sin_port = dport;
})

-- An error with a type and code, about a datagram to an address and port, goes to these clients.
abbrev pub Delivers : Daemon → (type code dport : ℕ) → Bytes → List ℕ → Option Handled → Type 0
Delivers d type code dport dest fds none = ⊥
Delivers d type code dport dest fds (some h) =
    (errno : ℕ) × IsErrno type code errno × Wrote d (error_about errno type code dest dport) fds h

Wrote-nothing : (d : Daemon) (m : Message) → Wrote d m [] (handled d)
Wrote-nothing d m = (
  λ fd h. absurd h,
  ap (λ (w : List (ℕ × Message)). record d { written = w }) (sym (append-nil d.written)),
)

Wrote-next :
    (d : Daemon) (m : Message) (fd : ℕ) (fds : List ℕ) (h : Handled)
    → d.write_fails fd ≡ false
    → Wrote (record d { written = d.written ++ ((fd, m) ∷ []) }) m fds h
    → Wrote d m (fd ∷ fds) h
Wrote-next d m fd fds (handled d') fine w = (
  λ f k. elim k [ inl e ↦ ap d.write_fails e ∙ fine | inr l ↦ w.0 f l ],
  w.1 ∙ ap (λ (l : List (ℕ × Message)). record d { written = l }) (append_assoc d.written _ _),
)
Wrote-next d m fd fds quit fine w = (w.0, inr w.1, w.2)

write_each-Wrote : (d : Daemon) (m : Message) (fds : List ℕ) → Wrote d m fds (write_each d m fds)
unfolding write_each
write_each-Wrote d m [] = Wrote-nothing d m
write_each-Wrote d m (fd ∷ fds) =
    if_keeps (Wrote d m (fd ∷ fds)) (d.write_fails fd) quit _ (λ e. (fd, inl refl, e))
      (λ e.
        Wrote-next d m fd fds _ e
          (write_each-Wrote (record d { written = d.written ++ ((fd, m) ∷ []) }) m fds))

module _ (d : Daemon) (buf : Bytes) (hlen1 hlen2 type code sport dport : ℕ) (dest : Bytes)
    (a : word_at buf (hlen1 + 8 + hlen2) ≡ some sport)
    (b : word_at buf (hlen1 + 8 + hlen2 + 2) ≡ some dport)
    (c : address_at buf (hlen1 + 8 + 16) ≡ some dest) where
  send_errors-Delivers :
      (fds : List ℕ)
      → Delivers d type code dport dest fds (send_errors d buf hlen1 hlen2 type code fds)
  unfolding send_errors
  send_errors-Delivers [] = (
    errno_of type code,
    errno_of-IsErrno type code,
    Wrote-nothing d (error_about (errno_of type code) type code dest dport),
  )
  send_errors-Delivers (fd ∷ fds) =
      rw (c, b) (errno_of type code, errno_of-IsErrno type code, write_each-Wrote d _ (fd ∷ fds))

  -- An ICMP error about a UDP datagram goes, with its type and code, the errno ECONNREFUSED for "port
  -- unreachable", EMSGSIZE for "fragmentation needed" and else EHOSTUNREACH, and the address and port that
  -- the datagram was sent to, to exactly those descriptors whose clients stand in the table with the
  -- datagram's source port, registered for AF_INET: it is written to all of them, unless a Write to one of
  -- them fails, which ends the daemon.
  pub pass_error-Delivers :
      IsTable d.used d.maxfd d.client
      → (fds : List ℕ) × Delivers d type code dport dest fds
          (pass_error d buf hlen1 hlen2 type code)
        × ((fd : ℕ) → In fd fds ↔ Listed fd sport d.client)
  unfolding pass_error
  pass_error-Delivers h = (
    found_clients sport d.used d.client,
    rw a (send_errors-Delivers (found_clients sport d.used d.client)),
    λ fd.
        subst (λ fds. In fd fds ↔ Listed fd sport d.client)
          (sym (found_clients-all sport d.used d.maxfd d.client h))
          (found_clients-Listed fd sport d.client),
  )
