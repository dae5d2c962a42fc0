-- ===== src/Server/Pool/Queue.antt =====
-- unp/unpv13e/server/serv08.c and pthread08.c: the ring between main and the threads.
use mathlib.Core.List.{head-eq_of_cons-eq, tail-eq_of_cons-eq}
use cpplearn.Common.{
  ℕ, suc, ◌+◌, ◌%◌, ◌≤◌, ◌<◌, ◌≡◌, refl, sym, ap, ◌∙◌, false, List, [], ◌∷◌, ◌++◌, append_assoc,
  length, get_or, ◌==◌, arith, length-append, set, length-set, get_or-set,
}
use cpplearn.Ring.Places.{objects, mod_apart, objects_mod, objects_last, objects-set}
use cpplearn.Server.Pool.{maxncli, Pool, next, put, take_connection, Thread, start}

-- The ring holds the connections of a queue, and main has called err_quit exactly if they fill it.
pub record Waiting (s : Pool) (q : List ℕ) : Type 0 where
  pub room : length s.clifd ≡ maxncli
  pub get_fits : s.iget < maxncli
  pub put_at : s.iput ≡ (s.iget + length q) % maxncli
  pub bounded : length q ≤ maxncli
  pub over : s.quit ≡ (length q == maxncli)
  pub contents : objects s.clifd maxncli s.iget (length q) ≡ q
  pub order : s.taken ++ q ≡ s.accepted

next_mod : (i : ℕ) → i < maxncli → next i ≡ (i + 1) % maxncli
unfolding next
next_mod i h = ground arith

pub put-Waiting :
    (fd : ℕ) (s : Pool) (q : List ℕ)
    → Waiting s q
    → s.quit ≡ false
    → Waiting (put fd s) (q ++ (fd ∷ []))
unfolding put
put-Waiting fd s q h on =
    let short : length q < maxncli = ground (arith, on, h.over, h.bounded) in
    let more : length (q ++ (fd ∷ [])) ≡ suc (length q) =
      omega (arith, length-append q (fd ∷ [])) in
    let within : s.iput < length s.clifd = omega (arith, h.put_at, h.room) in
    let there : (s.iget + length q) % maxncli ≡ s.iput = sym h.put_at in
    let kept =
      objects-set s.clifd maxncli (length q) s.iget s.iput fd within
        (λ i lt e. mod_apart maxncli s.iget i (length q) lt short (e ∙ h.put_at)) in
    let new : get_or (set s.clifd s.iput fd) s.iput 0 ≡ fd =
      ground (arith, get_or-set s.clifd s.iput s.iput fd 0) in
    let all : objects (set s.clifd s.iput fd) maxncli s.iget (suc (length q)) ≡ q ++ (fd ∷ []) =
      rw
        (
          objects_last (set s.clifd s.iput fd) maxncli (length q) s.iget,
          kept,
          there,
          new,
          h.contents,
        )
        refl in
    let moved : next s.iput ≡ (s.iget + suc (length q)) % maxncli =
      next_mod s.iput (omega (arith, h.put_at)) ∙ omega (arith, h.put_at) in
    record {
      room = length-set s.clifd s.iput fd ∙ h.room;
      get_fits = h.get_fits;
      put_at = rw more moved;
      bounded = omega (arith, more, short);
      over = rw more (ground (arith, moved, h.get_fits, short));
      contents = rw more all;
      order = sym (append_assoc s.taken q (fd ∷ [])) ∙ ap (λ xs. xs ++ (fd ∷ [])) h.order;
    }

pub take_connection-Waiting :
    (i : ℕ) (t : Thread) (s : Pool) (fd : ℕ) (q : List ℕ)
    → Waiting s (fd ∷ q)
    → s.quit ≡ false
    → Waiting (take_connection i t s) q
unfolding take_connection
take_connection-Waiting i t s fd q h on =
    let first : get_or s.clifd s.iget 0 ≡ fd =
      ap (λ j. get_or s.clifd j 0) (omega (arith, h.get_fits)) ∙ head-eq_of_cons-eq h.contents in
    let moved : next s.iget ≡ (s.iget + 1) % maxncli = next_mod s.iget h.get_fits in
    record {
      room = h.room;
      get_fits = omega (arith, moved);
      put_at = omega (arith, h.put_at, moved);
      bounded = omega (arith, h.bounded);
      over = ground (arith, on, h.over, h.bounded);
      contents =
          objects_mod s.clifd maxncli (length q) _ _ (omega (arith, moved))
          ∙ tail-eq_of_cons-eq h.contents;
      order = rw (first) (append_assoc s.taken (fd ∷ []) q ∙ h.order);
    }

pub start-Waiting : (n : ℕ) → Waiting (start n) []
unfolding start
start-Waiting n = record {
  room = refl;
  get_fits = omega arith;
  put_at = refl;
  bounded = omega arith;
  over = refl;
  contents = refl;
  order = refl;
}

-- The ring does not depend on what the threads do.
pub Waiting-beside :
    (s : Pool) (q : List ℕ) (threads : List Thread) (fds : List ℕ)
    → Waiting s q
    → Waiting (record s { tptr = threads; closed = fds }) q
Waiting-beside s q threads fds h = record {
  room = h.room;
  get_fits = h.get_fits;
  put_at = h.put_at;
  bounded = h.bounded;
  over = h.over;
  contents = h.contents;
  order = h.order;
}
