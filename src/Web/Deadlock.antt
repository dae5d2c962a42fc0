-- ===== src/Web/Deadlock.antt =====
-- unp/unpv13e/threads/web03.c: main joins a thread while it holds the mutex that the thread needs.
use cpplearn.Common.{
  Leads, ℕ, zero, suc, ◌≡◌, ◌≢◌, refl, get_elem?, Option, none, some, List, [], ◌∷◌,
}
use cpplearn.Web.{
  Phase, connecting, reading, done, scanning, Web, file_at, set_file, scan_file, main_at, main_step,
  thread_at, thread_for, thread_step, Run, Run-keeps,
}

-- Main is at file `i` in the loop over the files, and the thread of the file has set F_DONE but has
-- not yet got the mutex.
pub record IsJoining (i : ℕ) (s : Web) : Type 0 where
  pub at : s.main ≡ scanning i
  pub phase : file_at s.files i ≡ some done

main_step-joining : (i : ℕ) (s : Web) → IsJoining i s → main_step s ≡ none
unfolding main_step main_at scan_file
main_step-joining i s h = rw (h.at, h.phase) refl

file_at-set_file :
    (files : List Phase) (i j : ℕ) (a b : Phase)
    → file_at files i ≡ some done
    → file_at files j ≡ some a
    → a ≢ done
    → file_at (set_file files j b) i ≡ some done
unfolding file_at set_file
file_at-set_file [] i j a b h e ne = h
file_at-set_file (phase ∷ rest) zero zero a b h e ne = absurd (ne (cc))
file_at-set_file (phase ∷ rest) zero (suc j) a b h e ne = h
file_at-set_file (phase ∷ rest) (suc i) zero a b h e ne = h
file_at-set_file (phase ∷ rest) (suc i) (suc j) a b h e ne = file_at-set_file rest i j a b h e ne

thread_at-IsJoining :
    (i j : ℕ) (s : Web) (o : Option Phase)
    → IsJoining i s
    → file_at s.files j ≡ o
    → Leads (IsJoining i) (thread_at s j o)
unfolding thread_at
thread_at-IsJoining i j s (some connecting) h e = record {
  at = h.at;
  phase = file_at-set_file s.files i j connecting reading h.phase e (λ c. cc);
}
thread_at-IsJoining i j s (some reading) h e = record {
  at = h.at;
  phase = file_at-set_file s.files i j reading done h.phase e (λ c. cc);
}
thread_at-IsJoining i j s (some done) h e = rw h.at tt
thread_at-IsJoining i j s _ h e = tt

thread_for-IsJoining :
    (i : ℕ) (s : Web) (o : Option ℕ) → IsJoining i s → Leads (IsJoining i) (thread_for s o)
unfolding thread_for
thread_for-IsJoining i s none h = tt
thread_for-IsJoining i s (some j) h = thread_at-IsJoining i j s (file_at s.files j) h refl

-- A main that joins a thread which has set F_DONE and waits for the mutex stays there, and so does
-- the thread, whatever the other threads do: the program never ends.
pub Run-IsJoining : (i : ℕ) (s t : Web) → Run s t → IsJoining i s → IsJoining i t
unfolding thread_step
Run-IsJoining i s t run h =
    Run-keeps (IsJoining i) (λ u k. rw (main_step-joining i u k) tt)
      (λ tid u k. thread_for-IsJoining i u (get_elem? u.threads tid) k) s t run h
