-- ===== src/Io/Readn.antt =====
-- unp/unpv13e/lib/readn.c. A loop takes fuel, one unit for each call of read; `none` is its end.
use cpplearn.Common.{
  ℕ, zero, suc, ◌-◌, ◌≤◌, ◌<◌, ◌≡◌, ◌⊎◌, inl, inr, refl, sym, Option, none, some, List, [], ◌∷◌,
  ◌++◌, append_assoc, append-nil, Bytes, length, take, drop, take-append_long, take-append_short,
  drop-append_long, drop-append_short, length-drop, length-take, if◌then◌else◌, ◌==◌, leb, arith,
  Bool-cases, length-append,
}
use cpplearn.Io.Events.{
  Event, chunk, interrupted, broken, got, eintr, error, read, closed, failure, stream, ending,
  stream-chunk,
}

-- The buffer and its length, or -1 with errno; and the events that are left.
pub data Returned : Type 0 where
  returned : Bytes → List Event → Returned
  minus_one : ℕ → List Event → Returned

-- `buffer` holds the bytes read so far; `nleft` is what is left to read.
readn_loop : ℕ → ℕ → Bytes → List Event → Option Returned
readn_loop zero nleft buffer events = none
readn_loop (suc fuel) nleft buffer events =
    let (result, rest) = read nleft events in
    let again : Option Returned = elim result [
      | got bytes ↦
          let more = readn_loop fuel (nleft - length bytes) (buffer ++ bytes) rest in
          if length bytes == 0 then some (returned buffer rest) else more
      | eintr ↦ readn_loop fuel nleft buffer rest
      | error e ↦ some (minus_one e rest)
    ] in
    if nleft == 0 then some (returned buffer events) else again

-- The calls of read are at most one more than the events.
unfoldable pub readn : ℕ → List Event → Option Returned
unfolding readn_loop read
readn n events = readn_loop (suc (length events)) n [] events

-- What a caller may expect of `n` bytes asked for behind those of `buffer`.
abbrev pub Reads : ℕ → Bytes → List Event → Option Returned → Type 0
Reads n buffer events none = ⊥
Reads n buffer events (some (returned bytes rest)) =
    (bytes ≡ buffer ++ take n (stream events))
    × (((n ≤ length (stream events))
          × (stream rest ≡ drop n (stream events))
          × (ending rest ≡ ending events))
        ⊎ ((length (stream events) < n) × (ending events ≡ closed)))
Reads n buffer events (some (minus_one e rest)) =
    (length (stream events) < n) × (ending events ≡ failure e)

-- What is read behind some bytes of the stream is read behind the buffer with them.
Reads-chunk :
    (n b : ℕ) (bytes buffer : Bytes) (rest : List Event) (o : Option Returned)
    → length bytes ≤ n
    → Reads (n - length bytes) (buffer ++ b ∷ bytes) rest o
    → Reads (suc n) buffer (chunk (b ∷ bytes) ∷ rest) o
Reads-chunk n b bytes buffer rest none fits r = r
Reads-chunk n b bytes buffer rest (some (returned out left)) fits r = ground (
  arith,
  append_assoc buffer (b ∷ bytes) (take (n - length bytes) (stream rest)),
  take-append_long n bytes (stream rest),
  drop-append_long n bytes (stream rest),
  length-append bytes (stream rest),
)
Reads-chunk n b bytes buffer rest (some (minus_one e left)) fits r =
    ground (arith, length-append bytes (stream rest))

module _ (fuel n b : ℕ) (buffer bytes : Bytes) (rest : List Event) where
  readn_loop-fits :
      length bytes ≤ n
      → readn_loop (suc fuel) (suc n) buffer (chunk (b ∷ bytes) ∷ rest)
        ≡ readn_loop fuel (n - length bytes) (buffer ++ b ∷ bytes) rest
  unfolding readn_loop read
  readn_loop-fits h = ground arith

  readn_loop-zero :
      (nleft : ℕ) (events : List Event)
      → nleft ≡ 0
      → readn_loop (suc fuel) nleft buffer events ≡ some (returned buffer events)
  unfolding readn_loop
  readn_loop-zero nleft events h = ground arith

  readn_loop-interrupted :
      readn_loop (suc fuel) (suc n) buffer (interrupted ∷ rest)
      ≡ readn_loop fuel (suc n) buffer rest
  unfolding readn_loop read
  readn_loop-interrupted = ground arith

  readn_loop-broken :
      readn_loop (suc fuel) (suc n) buffer (broken b ∷ rest) ≡ some (minus_one b rest)
  unfolding readn_loop read
  readn_loop-broken = ground arith

readn_loop-more :
    (fuel n b : ℕ) (buffer bytes : Bytes) (rest : List Event)
    → n < length bytes
    → readn_loop (suc (suc fuel)) (suc n) buffer (chunk (b ∷ bytes) ∷ rest)
      ≡ some (returned (buffer ++ b ∷ take n bytes) (chunk (drop n bytes) ∷ rest))
unfolding readn_loop read
readn_loop-more fuel n b buffer bytes rest h =
    let part = chunk (drop n bytes) ∷ rest in
    ground (
      arith,
      length-take n bytes,
      readn_loop-zero fuel n b (buffer ++ b ∷ take n bytes) bytes rest
          (suc n - length (b ∷ take n bytes)) part,
    )

Reads-interrupted :
    (n : ℕ) (buffer : Bytes) (rest : List Event) (o : Option Returned)
    → Reads n buffer rest o
    → Reads n buffer (interrupted ∷ rest) o
Reads-interrupted n buffer rest none r = r
Reads-interrupted n buffer rest (some (returned bytes left)) r = r
Reads-interrupted n buffer rest (some (minus_one e left)) r = r

-- A chunk that is longer than what is left to read is cut.
Reads-part :
    (n b : ℕ) (bytes buffer : Bytes) (rest : List Event)
    → n < length bytes
    → Reads
        (suc n)
        buffer
        (chunk (b ∷ bytes) ∷ rest)
        (some (returned (buffer ++ b ∷ take n bytes) (chunk (drop n bytes) ∷ rest)))
Reads-part n b bytes buffer rest h = ground (
  arith,
  take-append_short n bytes (stream rest),
  drop-append_short n bytes (stream rest),
  length-append bytes (stream rest),
  length-drop n bytes,
  stream-chunk (drop n bytes) rest,
)

readn_loop-Reads :
    (fuel n : ℕ) (buffer : Bytes) (events : List Event)
    → length events < fuel
    → Reads n buffer events (readn_loop fuel n buffer events)
unfolding readn_loop read
readn_loop-Reads zero n buffer events h = absurd (omega arith)
readn_loop-Reads (suc fuel) zero buffer events h =
    (sym (append-nil buffer), inl (omega arith, refl, refl))
readn_loop-Reads (suc fuel) (suc n) buffer [] h = ground (arith, append-nil buffer)
readn_loop-Reads (suc fuel) (suc n) buffer (chunk [] ∷ rest) h = ground (arith, append-nil buffer)
readn_loop-Reads (suc zero) (suc n) buffer (chunk (b ∷ bytes) ∷ rest) h = absurd (omega arith)
readn_loop-Reads (suc (suc fuel)) (suc n) buffer (chunk (b ∷ bytes) ∷ rest) h =
    elim (Bool-cases (leb (length bytes) n)) [
      | inl fits ↦ rw (readn_loop-fits (suc fuel) n b buffer bytes rest (ground arith)) (
          Reads-chunk n b bytes buffer rest _ (ground arith) (
            readn_loop-Reads (suc fuel) (n - length bytes) (buffer ++ b ∷ bytes) rest
              (omega arith)))
      | inr more ↦
          rw (readn_loop-more fuel n b buffer bytes rest (ground arith))
            (Reads-part n b bytes buffer rest (ground arith))
    ]
readn_loop-Reads (suc fuel) (suc n) buffer (interrupted ∷ rest) h =
    rw (readn_loop-interrupted fuel n 0 buffer [] rest) (
      Reads-interrupted (suc n) buffer rest _
        (readn_loop-Reads fuel (suc n) buffer rest (omega arith)))
readn_loop-Reads (suc fuel) (suc n) buffer (broken e ∷ rest) h =
    rw (readn_loop-broken fuel n e buffer [] rest) (omega arith, refl)

-- readn returns, whatever the chunks and signals. It gives the next `n` bytes of the stream and
-- leaves the others, or all of them where the stream is closed before; it fails exactly where the
-- stream fails before `n` bytes have come, with the stream's error.
pub readn-Reads : (n : ℕ) (events : List Event) → Reads n [] events (readn n events)
unfolding readn
readn-Reads n events = readn_loop-Reads (suc (length events)) n [] events (omega arith)
