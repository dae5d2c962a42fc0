-- ===== src/Nonblock/Steps.antt =====
-- unp/unpv13e/nonblock/strclinonb.c: what the reads and the writes of a turn keep.
use cpplearn.Common.{
  ℕ, suc, ◌+◌, ◌-◌, ◌≤◌, ◌<◌, ◌≡◌, inl, inr, refl, sym, ap, ◌∙◌, Bool, true, false, ◌&&◌, [], ◌∷◌,
  ◌++◌, append_assoc, Bytes, length, take, min, if◌then◌else◌, ◌==◌, arith, Bool-cases, if_both,
  length-append, length-take,
}
use cpplearn.Nonblock.{
  maxline, Buffer, pending, fill, wrote, Client, Result, would_block, fails, gives, Outcome,
  running, returned, premature, failed, send_fin, stdin_gave, sock_gave, stdout_took, sock_took,
  and_then,
}
use cpplearn.Nonblock.Buffers.{
  IsBuffer, length-pending, pending-fill, fill-IsBuffer, wrote-IsBuffer, pending-wrote,
}

-- The bytes of each way arrive in order, once each, but for those in its buffer, and FIN was sent
-- once if stdin has ended and nothing is left in `to`, and else never.
pub record IsCopied (s : Client) : Type 0 where
  pub to : IsBuffer s.to
  pub fr : IsBuffer s.fr
  pub out : s.sent ++ pending s.to ≡ s.typed
  pub back : s.shown ++ pending s.fr ≡ s.received
  pub fin : s.fins ≡ (if s.stdineof && s.to.optr == length s.to.filled then 1 else 0)

-- The same within a turn: there is room in `fr` while the socket is still to be read.
pub record IsReady (s : Client) : Type 0 where
  pub copied : IsCopied s
  pub room : s.read_sock ≡ true → length s.fr.filled < maxline

abbrev pub Kept : (Client → Type 0) → Outcome → Type 0
Kept P (running s) = P s
Kept P (returned s) = P s
Kept P (premature s) = P s
Kept P (failed e s) = P s

pub Kept-and_then :
    (P : Client → Type 0) (o : Outcome) (next : Client → Outcome)
    → Kept P o
    → ((s : Client) → P s → Kept P (next s))
    → Kept P (and_then o next)
unfolding and_then
Kept-and_then P (running s) next h k = k s h
Kept-and_then P (returned s) next h k = h
Kept-and_then P (premature s) next h k = h
Kept-and_then P (failed e s) next h k = h

-- A read takes some bytes and no more than there is room for.
length-taken :
    (b : ℕ) (bytes : Bytes) (n : ℕ)
    → n < maxline
    → (0 < length (take (maxline - n) (b ∷ bytes)))
      × (n + length (take (maxline - n) (b ∷ bytes)) ≤ maxline)
length-taken b bytes n h = (
  omega (arith, length-take (maxline - n) (b ∷ bytes)),
  omega (arith, length-take (maxline - n) (b ∷ bytes)),
)

-- Behind a read there is something to write.
fill-ahead :
    (bytes : Bytes) (b : Buffer)
    → IsBuffer b
    → 0 < length bytes
    → ((fill bytes b).optr == length (fill bytes b).filled) ≡ false
unfolding fill
fill-ahead bytes b h more = ground (arith, length-append b.filled bytes, h.ordered)

send_fin-IsCopied :
    (c : Bool) (s : Client)
    → IsBuffer s.to
    → IsBuffer s.fr
    → s.sent ++ pending s.to ≡ s.typed
    → s.shown ++ pending s.fr ≡ s.received
    → s.fins ≡ 0
    → c ≡ (s.stdineof && s.to.optr == length s.to.filled)
    → IsCopied (send_fin c s)
unfolding send_fin
send_fin-IsCopied true s to fr out back unsent e = record {
  to = to;
  fr = fr;
  out = out;
  back = back;
  fin = rw (sym e) (ap suc unsent);
}
send_fin-IsCopied false s to fr out back unsent e = record {
  to = to;
  fr = fr;
  out = out;
  back = back;
  fin = rw (sym e) unsent;
}

send_fin-room :
    (c : Bool) (s : Client)
    → (s.read_sock ≡ true → length s.fr.filled < maxline)
    → (send_fin c s).read_sock ≡ true
    → length (send_fin c s).fr.filled < maxline
unfolding send_fin
send_fin-room true s room = room
send_fin-room false s room = room

pub stdin_gave-IsReady :
    (s : Client) (g : Result Bytes)
    → IsReady s
    → s.stdineof ≡ false
    → length s.to.filled < maxline
    → Kept IsReady (stdin_gave s g)
unfolding stdin_gave
stdin_gave-IsReady s would_block h e room = h
stdin_gave-IsReady s (fails c) h e room = h
stdin_gave-IsReady s (gives []) h e room =
    let c : Bool = s.to.optr == length s.to.filled in
    let s' : Client = record s { stdineof = true } in
    record {
      copied =
          send_fin-IsCopied c s' h.copied.to h.copied.fr h.copied.out h.copied.back
            (h.copied.fin ∙ rw e refl) refl;
      room = send_fin-room c s' h.room;
    }
stdin_gave-IsReady s (gives (b ∷ bytes)) h e room =
    let new : Bytes = take (maxline - length s.to.filled) (b ∷ bytes) in
    let (more, fits) = length-taken b bytes (length s.to.filled) room in
    record {
      copied = record {
        to = fill-IsBuffer new s.to h.copied.to fits more;
        fr = h.copied.fr;
        out =
            rw
              (
                pending-fill new s.to h.copied.to,
                sym (append_assoc s.sent (pending s.to) new),
                h.copied.out,
              )
              refl;
        back = h.copied.back;
        fin = rw e (h.copied.fin ∙ rw e refl);
      };
      room = h.room;
    }

pub sock_gave-IsReady :
    (s : Client) (g : Result Bytes)
    → IsReady s
    → length s.fr.filled < maxline
    → Kept IsCopied (sock_gave s g)
unfolding sock_gave
sock_gave-IsReady s would_block h room = h.copied
sock_gave-IsReady s (fails c) h room = h.copied
sock_gave-IsReady s (gives []) h room =
    if_both (Kept IsCopied) s.stdineof (returned s) (premature s) h.copied h.copied
sock_gave-IsReady s (gives (b ∷ bytes)) h room =
    let new : Bytes = take (maxline - length s.fr.filled) (b ∷ bytes) in
    let (more, fits) = length-taken b bytes (length s.fr.filled) room in
    record {
      to = h.copied.to;
      fr = fill-IsBuffer new s.fr h.copied.fr fits more;
      out = h.copied.out;
      back =
          rw
            (
              pending-fill new s.fr h.copied.fr,
              sym (append_assoc s.shown (pending s.fr) new),
              h.copied.back,
            )
            refl;
      fin = h.copied.fin;
    }

pub stdout_took-IsCopied :
    (s : Client) (g : Result ℕ) → IsCopied s → Kept IsCopied (stdout_took s g)
unfolding stdout_took
stdout_took-IsCopied s would_block h = h
stdout_took-IsCopied s (fails c) h = h
stdout_took-IsCopied s (gives k) h =
    let n : ℕ = min k (length (pending s.fr)) in
    let fits : n ≤ length (pending s.fr) = omega arith in
    record {
      to = h.to;
      fr = wrote-IsBuffer n s.fr h.fr fits;
      out = h.out;
      back =
          rw
            (
              append_assoc s.shown (take n (pending s.fr)) (pending (wrote n s.fr)),
              pending-wrote n s.fr h.fr fits,
            )
            h.back;
      fin = h.fin;
    }

-- The pointers meet behind a write that takes all.
wrote-met :
    (n : ℕ) (b : Buffer)
    → ((wrote n b).optr == length (wrote n b).filled) ≡ (b.optr + n == length b.filled)
unfolding wrote
wrote-met n b = elim (Bool-cases (b.optr + n == length b.filled)) [
  | inl e ↦ rw e refl
  | inr e ↦ rw e e
]

&&-swap : (a b : Bool) → (a && b) ≡ (b && a)
&&-swap true true = refl
&&-swap true false = refl
&&-swap false true = refl
&&-swap false false = refl

pub sock_took-IsCopied :
    (s : Client) (g : Result ℕ)
    → IsCopied s
    → 0 < length (pending s.to)
    → Kept IsCopied (sock_took s g)
unfolding sock_took
sock_took-IsCopied s would_block h more = h
sock_took-IsCopied s (fails c) h more = h
sock_took-IsCopied s (gives k) h more =
    let n : ℕ = min k (length (pending s.to)) in
    let fits : n ≤ length (pending s.to) = omega arith in
    let apart : (s.to.optr == length s.to.filled) ≡ false =
      ground (arith, length-pending s.to, more) in
    send_fin-IsCopied (s.to.optr + n == length s.to.filled && s.stdineof)
      (record s { to = wrote n s.to; sent = s.sent ++ take n (pending s.to) })
      (wrote-IsBuffer n s.to h.to fits) h.fr
      (rw
        (
          append_assoc s.sent (take n (pending s.to)) (pending (wrote n s.to)),
          pending-wrote n s.to h.to fits,
        )
        h.out)
      h.back (h.fin ∙ ground (arith, apart))
      (rw (wrote-met n s.to) (&&-swap (s.to.optr + n == length s.to.filled) s.stdineof))
