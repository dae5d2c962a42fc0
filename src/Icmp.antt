-- ===== src/Icmp.antt =====
-- The packets that unp/unpv13e/traceroute, icmpd and ping read from a raw socket, and write to it: an
-- IP header, the ICMP header of eight bytes, and what stands behind it.
pub mod Trace
pub mod Ping
pub mod Daemon
use cpplearn.Common.{
  ℕ, zero, suc, ◌+◌, ◌*◌, ◌%◌, ◌<◌, ◌≡◌, refl, ap, ◌∙◌, Option, none, some, List, [], ◌∷◌, ◌++◌,
  Bytes, length, get_elem?, arith,
}

-- A read of the bytes that recvfrom gave; `none` is a read behind their end.
infixl 5 ◌>>=◌
abbrev pub ◌>>=◌ {ℓ κ} : {A : Type ℓ} {B : Type κ} → Option A → (A → Option B) → Option B
none >>= f = none
some a >>= f = f a

abbrev pub byte_at : Bytes → ℕ → Option ℕ
byte_at buf i = get_elem? buf i

-- A `u_short` in memory, the low byte first.
unfoldable pub word_at : Bytes → ℕ → Option ℕ
word_at buf i = do lo ← byte_at buf i; hi ← byte_at buf (i + 1); some (lo + 256 * hi)

-- `ip_hl << 2`, the length of an IP header by its first byte.
abbrev pub header_length : ℕ → ℕ
header_length first = first % 16 * 4

abbrev pub icmp_echoreply : ℕ
icmp_echoreply = 0

abbrev pub icmp_unreach : ℕ
icmp_unreach = 3

abbrev pub icmp_sourcequench : ℕ
icmp_sourcequench = 4

abbrev pub icmp_timxceed : ℕ
icmp_timxceed = 11

abbrev pub icmp_unreach_port : ℕ
icmp_unreach_port = 3

abbrev pub icmp_unreach_needfrag : ℕ
icmp_unreach_needfrag = 4

abbrev pub ipproto_icmp : ℕ
ipproto_icmp = 1

abbrev pub ipproto_udp : ℕ
ipproto_udp = 17

-- A read in front of the end succeeds.
pub get_elem?-some {ℓ} :
    {A : Type ℓ} (xs : List A) (i : ℕ) → i < length xs → (x : A) × (get_elem? xs i ≡ some x)
get_elem?-some [] i h = absurd (omega (arith, h))
get_elem?-some (x ∷ xs) zero h = (x, refl)
get_elem?-some (x ∷ xs) (suc i) h = get_elem?-some xs i (omega (arith, h))

pub word_at-some : (buf : Bytes) (i : ℕ) → i + 1 < length buf → (w : ℕ) × (word_at buf i ≡ some w)
unfolding word_at
word_at-some buf i h =
    let (lo, e) = get_elem?-some buf i (omega arith) in
    let (hi, f) = get_elem?-some buf (i + 1) h in (lo + 256 * hi, rw (e, f) refl)

-- Reads behind a part of known length.
pub get_elem?-append {ℓ} :
    {A : Type ℓ} (xs ys : List A) (i : ℕ) → get_elem? (xs ++ ys) (length xs + i) ≡ get_elem? ys i
get_elem?-append [] ys i = ap (get_elem? ys) (omega arith)
get_elem?-append (x ∷ xs) ys i =
    let one : suc (length xs) + i ≡ suc (length xs + i) = omega arith in
    ap (get_elem? (x ∷ (xs ++ ys))) one ∙ get_elem?-append xs ys i

pub get_elem?-append_front {ℓ} :
    {A : Type ℓ} (xs ys : List A) (i : ℕ) (x : A)
    → get_elem? xs i ≡ some x
    → get_elem? (xs ++ ys) i ≡ some x
get_elem?-append_front [] ys i x h = absurd (cc)
get_elem?-append_front (y ∷ xs) ys zero x h = h
get_elem?-append_front (y ∷ xs) ys (suc i) x h = get_elem?-append_front xs ys i x h

pub word_at-append : (xs ys : Bytes) (i : ℕ) → word_at (xs ++ ys) (length xs + i) ≡ word_at ys i
unfolding word_at
word_at-append xs ys i =
    let next : length xs + i + 1 ≡ length xs + (i + 1) = omega arith in
    rw (get_elem?-append xs ys i, next, get_elem?-append xs ys (i + 1)) refl

-- A result is there: no read was behind the end.
abbrev pub Given {ℓ} : {A : Type ℓ} → Option A → Type ℓ
Given {A = A} o = (a : A) × (o ≡ some a)

pub >>=-Given {ℓ κ} :
    {A : Type ℓ} {B : Type κ} (m : Option A) (f : A → Option B)
    → Given m
    → ((a : A) → Given (f a))
    → Given (m >>= f)
>>=-Given none f h k = absurd (ground (arith, h.1))
>>=-Given (some a) f h k = k a
