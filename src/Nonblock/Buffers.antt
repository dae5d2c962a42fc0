-- ===== src/Nonblock/Buffers.antt =====
-- unp/unpv13e/nonblock/strclinonb.c: the bytes between the two pointers of a buffer.
use cpplearn.Common.{
  ℕ, ◌+◌, ◌-◌, ◌≤◌, ◌<◌, ◌≡◌, inl, inr, refl, sym, ◌++◌, append-nil, Bytes, length, take, drop-drop,
  ◌==◌, arith, Bool-cases, length-append, length-drop, drop-append_short, take_all,
  take-append-drop,
}
use cpplearn.Nonblock.{maxline, Buffer, pending, fill, wrote}

-- The pointers stand in order within the buffer, and at its beginning when they meet.
pub record IsBuffer (b : Buffer) : Type 0 where
  pub ordered : b.optr ≤ length b.filled
  pub bounded : length b.filled ≤ maxline
  pub rewound : b.optr ≡ length b.filled → length b.filled ≡ 0

pub length-pending : (b : Buffer) → length (pending b) ≡ length b.filled - b.optr
unfolding pending
length-pending b = length-drop b.optr b.filled

pub pending-fill :
    (bytes : Bytes) (b : Buffer) → IsBuffer b → pending (fill bytes b) ≡ pending b ++ bytes
unfolding pending fill
pending-fill bytes b h = drop-append_short b.optr b.filled bytes h.ordered

-- A read that fits in what is left behind `toiptr`.
pub fill-IsBuffer :
    (bytes : Bytes) (b : Buffer)
    → IsBuffer b
    → length b.filled + length bytes ≤ maxline
    → 0 < length bytes
    → IsBuffer (fill bytes b)
unfolding fill
fill-IsBuffer bytes b h fits more = record {
  ordered = omega (arith, length-append b.filled bytes, h.ordered);
  bounded = omega (arith, length-append b.filled bytes);
  rewound = λ e. absurd (omega (arith, length-append b.filled bytes, h.ordered, e));
}

pub wrote-IsBuffer :
    (n : ℕ) (b : Buffer) → IsBuffer b → n ≤ length (pending b) → IsBuffer (wrote n b)
unfolding wrote
wrote-IsBuffer n b h fits = elim (Bool-cases (b.optr + n == length b.filled)) [
  | inl e ↦ rw e (record { ordered = omega arith; bounded = omega arith; rewound = λ c. refl })
  | inr e ↦ rw e (record {
    ordered = omega (arith, length-pending b, h.ordered);
    bounded = h.bounded;
    rewound = λ c. absurd (ground (arith, e, c));
  })
]

-- What is written and what then is still to be written are what was to be written.
pub pending-wrote :
    (n : ℕ) (b : Buffer)
    → IsBuffer b
    → n ≤ length (pending b)
    → take n (pending b) ++ pending (wrote n b) ≡ pending b
unfolding wrote pending
pending-wrote n b h fits = elim (Bool-cases (b.optr + n == length b.filled)) [
  | inl e ↦
      rw (e, append-nil (take n (pending b)))
        (take_all n (pending b) (ground (arith, e, length-pending b, h.ordered)))
  | inr e ↦ rw (e, sym (drop-drop b.optr n b.filled)) (take-append-drop n (pending b))
]
