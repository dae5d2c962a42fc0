-- ===== src/Icmp/Daemon/Table.antt =====
-- unp/unpv13e/icmpd: the table of clients.
use cpplearn.Common.{
  if_both, ℕ, zero, suc, ◌-◌, ◌^◌, ◌≤◌, ◌<◌, ◌≡◌, ◌⊎◌, inl, inr, refl, Option, none, some, List, [],
  ◌∷◌, ◌==◌, arith,
}
use cpplearn.Icmp.Daemon.{
  Client, Message, bad, Daemon, behind, saved_entry, save_client, max_of, listen_saved,
  readable_listen,
}
use cpplearn.Icmp.Daemon.Conn.{Passed, client_done, client_ok, register, readable_conn}

-- A descriptor is no greater than `maxfd`.
abbrev pub IsBelow : ℕ → Option ℕ → Type 0
IsBelow maxfd none = Unit
IsBelow maxfd (some fd) = fd ≤ maxfd

-- The entries from `used` on are available, and the descriptors of the others at most `maxfd`.
abbrev pub IsTable : (used maxfd : ℕ) → List Client → Type 0
IsTable used maxfd [] = Unit
IsTable zero maxfd (c ∷ rest) = (c.connfd ≡ none) × IsTable zero maxfd rest
IsTable (suc used) maxfd (c ∷ rest) = IsBelow maxfd c.connfd × IsTable used maxfd rest

IsBelow-mono : (m n : ℕ) (o : Option ℕ) → m ≤ n → IsBelow m o → IsBelow n o
IsBelow-mono m n none le h = tt
IsBelow-mono m n (some fd) le h = omega (arith, h, le)

IsBelow-free : (m : ℕ) (o : Option ℕ) → o ≡ none → IsBelow m o
IsBelow-free m none e = tt
IsBelow-free m (some fd) e = absurd (cc)

pub IsTable-mono :
    (i j m n : ℕ) (cs : List Client) → i ≤ j → m ≤ n → IsTable i m cs → IsTable j n cs
IsTable-mono i j m n [] le le' h = tt
IsTable-mono zero zero m n (c ∷ cs) le le' h = (h.0, IsTable-mono zero zero m n cs le le' h.1)
IsTable-mono zero (suc j) m n (c ∷ cs) le le' h =
    (IsBelow-free n c.connfd h.0, IsTable-mono zero j m n cs (omega arith) le' h.1)
IsTable-mono (suc i) zero m n (c ∷ cs) le le' h = absurd (omega (arith, le))
IsTable-mono (suc i) (suc j) m n (c ∷ cs) le le' h =
    (IsBelow-mono m n c.connfd le' h.0, IsTable-mono i j m n cs (omega (arith, le)) le' h.1)

-- An entry in front of a table.
IsTable-cons :
    (i j m : ℕ) (c : Client) (cs : List Client)
    → suc i ≤ j
    → IsBelow m c.connfd
    → IsTable i m cs
    → IsTable j m (c ∷ cs)
IsTable-cons i zero m c cs le b h = absurd (omega (arith, le))
IsTable-cons i (suc j) m c cs le b h =
    (b, IsTable-mono i j m m cs (omega (arith, le)) (omega arith) h)

-- The rest of a table.
pub IsTable-rest :
    (i m : ℕ) (c : Client) (cs : List Client) → IsTable i m (c ∷ cs) → IsTable (i - 1) m cs
IsTable-rest zero m c cs h = h.1
IsTable-rest (suc i) m c cs h = IsTable-mono i (suc i - 1) m m cs (omega arith) (omega arith) h.1

used_at :
    (i m fd : ℕ) (c : Client) (cs : List Client) → IsTable i m (c ∷ cs) → c.connfd ≡ some fd → 0 < i
used_at zero m fd c cs h e = absurd (ground (arith, h.0, e))
used_at (suc i) m fd c cs h e = omega arith

IsBelow-at : (i m : ℕ) (c : Client) (cs : List Client) → IsTable i m (c ∷ cs) → IsBelow m c.connfd
IsBelow-at zero m c cs h = IsBelow-free m c.connfd h.0
IsBelow-at (suc i) m c cs h = h.0

abbrev Saved : (fd used maxfd : ℕ) → Option (ℕ × List Client) → Type 0
Saved fd used maxfd none = Unit
Saved fd used maxfd (some (i, cs)) = IsTable (max_of used (suc i)) (max_of maxfd fd) cs

Saved-behind :
    (fd used maxfd : ℕ) (c : Client) (o : Option (ℕ × List Client))
    → 0 < used
    → IsBelow maxfd c.connfd
    → Saved fd (used - 1) maxfd o
    → Saved fd used maxfd (behind c o)
Saved-behind fd used maxfd c none pos b h = tt
Saved-behind fd used maxfd c (some (i, cs)) pos b h =
    IsTable-cons (max_of (used - 1) (suc i)) (max_of used (suc (suc i))) (max_of maxfd fd) c cs
      (ground (arith, pos)) (IsBelow-mono maxfd (max_of maxfd fd) c.connfd (ground arith) b) h

saved_entry-Saved :
    (fd used maxfd : ℕ) (c : Client) (rest : List Client) (o : Option (ℕ × List Client))
    (here : Option ℕ)
    → c.connfd ≡ here
    → IsTable used maxfd (c ∷ rest)
    → Saved fd (used - 1) maxfd o
    → Saved fd used maxfd (saved_entry fd c rest o here)
unfolding saved_entry
saved_entry-Saved fd used maxfd c rest o none e h later =
    IsTable-cons (used - 1) (max_of used 1) (max_of maxfd fd) (record c { connfd = some fd }) rest
      (ground arith) (ground arith)
      (IsTable-mono (used - 1) (used - 1) maxfd (max_of maxfd fd) rest (omega arith) (ground arith)
        (IsTable-rest used maxfd c rest h))
saved_entry-Saved fd used maxfd c rest o (some fd') e h later =
    Saved-behind fd used maxfd c o (used_at used maxfd fd' c rest h e)
      (IsBelow-at used maxfd c rest h) later

save_client-Saved :
    (fd used maxfd : ℕ) (cs : List Client)
    → IsTable used maxfd cs
    → Saved fd used maxfd (save_client fd cs)
unfolding save_client
save_client-Saved fd used maxfd [] h = tt
save_client-Saved fd used maxfd (c ∷ rest) h =
    saved_entry-Saved fd used maxfd c rest (save_client fd rest) c.connfd refl h
      (save_client-Saved fd (used - 1) maxfd rest (IsTable-rest used maxfd c rest h))

abbrev pub IsDaemon : Daemon → Type 0
IsDaemon d = IsTable d.used d.maxfd d.client

pub readable_listen-IsDaemon : (fd : ℕ) (d : Daemon) → IsDaemon d → IsDaemon (readable_listen fd d)
unfolding readable_listen listen_saved
readable_listen-IsDaemon fd d h =
    at (save_client fd d.client) (save_client-Saved fd d.used d.maxfd d.client h)
  where
    at : (o : Option (ℕ × List Client)) → Saved fd d.used d.maxfd o → IsDaemon (listen_saved fd d o)
    at none k = h
    at (some (i, cs)) k = k

-- A client that is served keeps its descriptor or loses it, and the bounds stay.
abbrev Stays : Client → Daemon → Client × Daemon → Type 0
Stays c d r =
    ((r.0.connfd ≡ c.connfd) ⊎ (r.0.connfd ≡ none)) × (r.1.used ≡ d.used) × (r.1.maxfd ≡ d.maxfd)

client_done-Stays :
    (fd : ℕ) (o : Option ℕ) (told : List (ℕ × Message)) (c c' : Client) (d : Daemon)
    → Stays c d (client_done fd o told c' d)
unfolding client_done
client_done-Stays fd o told c c' d = (inr refl, refl, refl)

register-Stays :
    (fd recvfd : ℕ) (r : Passed) (c : Client) (d : Daemon) (o : Option (ℕ × ℕ))
    → Stays c d (register fd recvfd r c d o)
unfolding register
register-Stays fd recvfd r c d none = client_done-Stays fd (some recvfd) ((fd, bad) ∷ []) c c d
register-Stays fd recvfd r c d (some (family, lport)) =
    if_both (Stays c d) (lport == 0) _ _ (bound r.bound) (inl refl, refl, refl)
  where
    bound :
        (o : Option ℕ)
        → Stays c d (elim o [
          | none ↦
              client_done fd
                (some recvfd)
                ((fd, bad) ∷ [])
                (record c { family = family; lport = 2 ^ 32 - 1 })
                d
          | some port ↦ client_ok fd recvfd (record c { family = family; lport = port }) d
        ])
    bound none =
        client_done-Stays fd (some recvfd) ((fd, bad) ∷ []) c
          (record c { family = family; lport = 2 ^ 32 - 1 }) d
    bound (some port) = (inl refl, refl, refl)

pub readable_conn-Stays :
    (fd : ℕ) (r : Passed) (c : Client) (d : Daemon) → Stays c d (readable_conn fd r c d)
unfolding readable_conn
readable_conn-Stays fd r c d =
    if_both (Stays c d) r.ended _ _ (client_done-Stays fd r.recvfd [] c c d) (got r.recvfd)
  where
    got :
        (o : Option ℕ)
        → Stays c d (elim o [
          | none ↦ client_done fd none ((fd, bad) ∷ []) c d
          | some recvfd ↦ register fd recvfd r c d r.sockname
        ])
    got none = client_done-Stays fd none ((fd, bad) ∷ []) c c d
    got (some recvfd) = register-Stays fd recvfd r c d r.sockname

pub IsBelow-stays : (m : ℕ) (o o' : Option ℕ) → (o' ≡ o) ⊎ (o' ≡ none) → IsBelow m o → IsBelow m o'
IsBelow-stays m o o' (inl e) h = rw e h
IsBelow-stays m o o' (inr e) h = IsBelow-free m o' e
