-- ===== src/Icmp/Daemon/Turns.antt =====
-- unp/unpv13e/icmpd: the turns of the daemon keep its table.
use cpplearn.Common.{
  if_both, ℕ, zero, suc, ◌+◌, ◌-◌, ◌≡◌, ◌⊎◌, inl, inr, refl, ◌∙◌, Option, none, some, List, [], ◌∷◌,
  ◌++◌, Bytes, length, ◌==◌, ltb, arith,
}
use cpplearn.Icmp.{◌>>=◌, byte_at, word_at, header_length, ipproto_udp}
use cpplearn.Icmp.Daemon.{
  Client, Message, write_each, Daemon, readable_listen, Handled, handled, quit, address_at,
  send_errors, pass_error, is_error, error_v4, readable_v4,
}
use cpplearn.Icmp.Daemon.Conn.{
  Passed, readable_conn, check_conn, ready_for, check_entry, check_conns, Turn, check_clients,
  after_v4, after_listen, turn_for, turn,
}
use cpplearn.Icmp.Daemon.Table.{
  IsTable, IsTable-mono, IsTable-rest, IsBelow-stays, IsDaemon, readable_listen-IsDaemon,
  readable_conn-Stays,
}

-- The loop over the clients.
abbrev Thins : (used maxfd : ℕ) → Daemon → List Client × Daemon → Type 0
Thins used maxfd d r = IsTable used maxfd r.0 × (r.1.used ≡ d.used) × (r.1.maxfd ≡ d.maxfd)

IsTable-keep :
    (i m : ℕ) (c c' : Client) (cs cs' : List Client)
    → IsTable i m (c ∷ cs)
    → (c'.connfd ≡ c.connfd) ⊎ (c'.connfd ≡ none)
    → IsTable (i - 1) m cs'
    → IsTable i m (c' ∷ cs')
IsTable-keep zero m c c' cs cs' h (inl e) k = (e ∙ h.0, k)
IsTable-keep zero m c c' cs cs' h (inr e) k = (e, k)
IsTable-keep (suc i) m c c' cs cs' h e k = (
  IsBelow-stays m c.connfd c'.connfd e h.0,
  IsTable-mono (suc i - 1) i m m cs' (omega arith) (omega arith) k,
)

module _ (i m : ℕ) (c : Client) (rest : List Client) (next : ℕ → Daemon → List Client × Daemon)
    (h : IsTable i m (c ∷ rest))
    (later : (nready : ℕ) (d : Daemon) → Thins (i - 1) m d (next nready d)) where
  check_conn-Thins :
      (fd nready : ℕ) (d : Daemon) (o : Option Passed)
      → Thins i m d (check_conn fd c rest next nready d o)
  unfolding check_conn
  check_conn-Thins fd nready d none =
      let (table, same, same') = later nready d in
      (IsTable-keep i m c c rest (next nready d).0 h (inl refl) table, same, same')
  check_conn-Thins fd nready d (some r) =
      let (one, same, same') = readable_conn-Stays fd r c d in
      let c' : Client = (readable_conn fd r c d).0 in
      let d' : Daemon = (readable_conn fd r c d).1 in
      let (table, both, both') = later (nready - 1) d' in
      if_both (Thins i m d) (nready - 1 == 0) (c' ∷ rest, d')
        (c' ∷ (next (nready - 1) d').0, (next (nready - 1) d').1)
        (IsTable-keep i m c c' rest rest h one (IsTable-rest i m c rest h), same, same')
        (
          IsTable-keep i m c c' rest (next (nready - 1) d').0 h one table,
          both ∙ same,
          both' ∙ same',
        )

  check_entry-Thins :
      (nready : ℕ) (d : Daemon) (o : Option (ℕ × Option Passed))
      → Thins i m d (check_entry c rest next nready d o)
  unfolding check_entry
  check_entry-Thins nready d none =
      let (table, same, same') = later nready d in
      (IsTable-keep i m c c rest (next nready d).0 h (inl refl) table, same, same')
  check_entry-Thins nready d (some (fd, o)) = check_conn-Thins fd nready d o

check_conns-Thins :
    (readable : ℕ → Option Passed) (n i m : ℕ) (cs : List Client) (nready : ℕ) (d : Daemon)
    → IsTable i m cs
    → Thins i m d (check_conns readable n cs nready d)
unfolding check_conns
check_conns-Thins readable zero i m cs nready d h = (h, refl, refl)
check_conns-Thins readable (suc n) i m [] nready d h = (tt, refl, refl)
check_conns-Thins readable (suc n) i m (c ∷ rest) nready d h =
    check_entry-Thins i m c rest (check_conns readable n rest) h
      (λ k d'. check_conns-Thins readable n (i - 1) m rest k d' (IsTable-rest i m c rest h)) nready
      d (ready_for readable c.connfd)

-- The daemon goes on with its invariant, or an ICMP packet ends it, or is read behind its end.
abbrev pub Serves : Option Handled → Type 0
Serves none = Unit
Serves (some quit) = Unit
Serves (some (handled d)) = IsTable d.used d.maxfd d.client

check_clients-IsDaemon :
    (t : Turn) (n : ℕ) (d : Daemon) → IsDaemon d → IsDaemon (check_clients t n d)
unfolding check_clients
check_clients-IsDaemon t n d h =
    let (table, same, same') = check_conns-Thins t.readable d.used d.used d.maxfd d.client n d h in
    rw (same, same') table

-- readable_v4 writes, and changes nothing else.
abbrev Writes : Daemon → Option Handled → Type 0
Writes d none = Unit
Writes d (some quit) = Unit
Writes d (some (handled d')) = (d'.client ≡ d.client) × (d'.used ≡ d.used) × (d'.maxfd ≡ d.maxfd)

>>=-Writes {ℓ} :
    {A : Type ℓ} (d : Daemon) (m : Option A) (f : A → Option Handled)
    → ((a : A) → Writes d (f a))
    → Writes d (m >>= f)
>>=-Writes d none f h = tt
>>=-Writes d (some a) f h = h a

write_each-Writes :
    (d e : Daemon) (m : Message) (fds : List ℕ)
    → (e.client ≡ d.client) × (e.used ≡ d.used) × (e.maxfd ≡ d.maxfd)
    → Writes d (some (write_each e m fds))
unfolding write_each
write_each-Writes d e m [] same = same
write_each-Writes d e m (fd ∷ fds) same =
    if_both (λ h. Writes d (some h)) (e.write_fails fd) quit _ tt
      (write_each-Writes d (record e { written = e.written ++ ((fd, m) ∷ []) }) m fds same)

send_errors-Writes :
    (d : Daemon) (buf : Bytes) (hlen1 hlen2 type code : ℕ) (fds : List ℕ)
    → Writes d (send_errors d buf hlen1 hlen2 type code fds)
unfolding send_errors
send_errors-Writes d buf hlen1 hlen2 type code [] = (refl, refl, refl)
send_errors-Writes d buf hlen1 hlen2 type code (fd ∷ fds) =
    >>=-Writes d (address_at buf (hlen1 + 8 + 16)) _ (λ dest.
      >>=-Writes d (word_at buf (hlen1 + 8 + hlen2 + 2)) _
        (λ dport. write_each-Writes d d _ (fd ∷ fds) (refl, refl, refl)))

readable_v4-Writes : (buf : Bytes) (d : Daemon) → Writes d (readable_v4 buf d)
unfolding readable_v4 error_v4 pass_error
readable_v4-Writes buf d = >>=-Writes d (byte_at buf 0) _ (λ first.
    if_both (Writes d) (ltb (length buf) (header_length first + 8)) (some quit) _ tt (
      >>=-Writes d (byte_at buf (header_length first)) _ (λ type.
        >>=-Writes d (byte_at buf (header_length first + 1)) _ (λ code.
          if_both (Writes d) (is_error type) _ (some (handled d))
            (if_both (Writes d) (ltb (length buf - header_length first) (8 + 20 + 8)) (some quit) _
              tt
              (>>=-Writes d (byte_at buf (header_length first + 8)) _ (λ inner.
                >>=-Writes d (byte_at buf (header_length first + 8 + 9)) _ (λ protocol.
                  if_both (Writes d) (protocol == ipproto_udp) _ (some (handled d))
                    (>>=-Writes d (word_at buf (header_length first + 8 + header_length inner)) _
                      (λ sport. send_errors-Writes d buf _ _ type code _))
                    (refl, refl, refl)))))
            (refl, refl, refl)))))

after_v4-Serves :
    (t : Turn) (n : ℕ) (d : Daemon) (o : Option Handled)
    → IsDaemon d
    → Writes d o
    → Serves (after_v4 t n o)
unfolding after_v4
after_v4-Serves t n d none h w = tt
after_v4-Serves t n d (some quit) h w = tt
after_v4-Serves t n d (some (handled d')) h (a, b, c) =
    let h' : IsDaemon d' = rw (a, b, c) h in
    if_both IsDaemon (n - 1 == 0) d' (check_clients t (n - 1) d') h'
      (check_clients-IsDaemon t (n - 1) d' h')

after_listen-Serves :
    (t : Turn) (n : ℕ) (d : Daemon) (o : Option Bytes) → IsDaemon d → Serves (after_listen t n d o)
unfolding after_listen
after_listen-Serves t n d none h = check_clients-IsDaemon t n d h
after_listen-Serves t n d (some buf) h =
    after_v4-Serves t n d (readable_v4 buf d) h (readable_v4-Writes buf d)

turn_for-Serves : (t : Turn) (d : Daemon) (o : Option ℕ) → IsDaemon d → Serves (turn_for t d o)
unfolding turn_for
turn_for-Serves t d none h = after_listen-Serves t t.nready d t.packet h
turn_for-Serves t d (some fd) h =
    let h' = readable_listen-IsDaemon fd d h in
    if_both Serves (t.nready - 1 == 0) (some (handled (readable_listen fd d))) _ h'
      (after_listen-Serves t (t.nready - 1) (readable_listen fd d) t.packet h')

-- A turn of the daemon, whatever select and the clients do, keeps every entry behind maxi available
-- and every descriptor of the table at most maxfd, unless it ends the
-- daemon or its packet is read behind its end.
pub turn-Serves : (t : Turn) (d : Daemon) → IsTable d.used d.maxfd d.client → Serves (turn t d)
unfolding turn
turn-Serves t d h = turn_for-Serves t d t.accepted h
