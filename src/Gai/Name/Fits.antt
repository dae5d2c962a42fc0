-- ===== src/Gai/Name/Fits.antt =====
-- unp/unpv13e/libgai/getnameinfo.c: the buffers are large enough, and a port number is read back.
use cpplearn.Common.{
  ℕ, zero, suc, ◌^◌, ◌≤◌, ◌<◌, ◌≡◌, refl, Bool, true, false, Option, none, some, Bytes, codes,
  length, if◌then◌else◌, ◌==◌, has_flag, arith, length-take,
}
use cpplearn.Common.Decimal.{
  htons, decimal, snprintf, snprintf_all, atoi, atoi-decimal, length-decimal,
}
use cpplearn.Sock.{Address, inet, inet6, unix, other, sock_get_port}
use cpplearn.Gai.Name.{
  ni_dgram, ni_numericserv, ni_numerichost, ni_namereqd, Names, NameResult, named, unnamed,
  short_name, with_serv, host_name, host_text, serv_name, serv_text, gn_ipv46, getnameinfo,
}

-- What is written to a buffer leaves room for the null byte.
abbrev pub FitsIn : ℕ → Option Bytes → Type 0
FitsIn size none = Unit
FitsIn size (some text) = length text < size

abbrev pub BothFit : ℕ → ℕ → NameResult → Type 0
BothFit hostlen servlen unnamed = Unit
BothFit hostlen servlen (named host serv) = FitsIn hostlen host × FitsIn servlen serv

snprintf-lt : (size : ℕ) (text : Bytes) → 0 < size → length (snprintf size text) < size
snprintf-lt zero text h = absurd (omega arith)
snprintf-lt (suc n) text h = omega (arith, length-take n text)

FitsIn-if :
    (size : ℕ) (b : Bool) (s t : Option Bytes)
    → FitsIn size s
    → FitsIn size t
    → FitsIn size (if b then s else t)
FitsIn-if size true s t h k = h
FitsIn-if size false s t h k = k

with_serv-BothFit :
    (hostlen servlen : ℕ) (host serv : Option Bytes)
    → FitsIn hostlen host
    → FitsIn servlen serv
    → BothFit hostlen servlen (with_serv host serv)
with_serv-BothFit hostlen servlen none serv h k = tt
with_serv-BothFit hostlen servlen (some host) serv h k = (h, k)

if-BothFit :
    (hostlen servlen : ℕ) (b : Bool) (x y : NameResult)
    → BothFit hostlen servlen x
    → BothFit hostlen servlen y
    → BothFit hostlen servlen (if b then x else y)
if-BothFit hostlen servlen true x y h k = h
if-BothFit hostlen servlen false x y h k = k

-- A text that is written only to a buffer with room, as snprintf cuts it.
cut-FitsIn :
    (size : ℕ) (text : Bytes) → FitsIn size (if size == 0 then none else some (snprintf size text))
cut-FitsIn zero text = ground arith
cut-FitsIn (suc n) text = ground (arith, length-take n text)

serv_text_cut :
    (names : Names) (servlen port flags : ℕ)
    → (text : Bytes) × (serv_text names servlen port flags
        ≡ (if servlen == 0 then none else some (snprintf servlen text)))
unfolding serv_text
serv_text_cut names servlen port flags =
    cut_text (has_flag flags ni_numericserv)
      (names.getservbyport port (if has_flag flags ni_dgram then some (codes "udp") else none))
  where
    cut_text :
        (b : Bool) (o : Option Bytes)
        → (text : Bytes) × ((if servlen == 0
              then none
              else some (
                  if b
                  then snprintf servlen (decimal (htons port))
                  else serv_name names servlen port o))
            ≡ (if servlen == 0 then none else some (snprintf servlen text)))
    cut_text true o = (decimal (htons port), refl)
    cut_text false (some name) = (name, refl)
    cut_text false none = (decimal (htons port), refl)

serv_text-FitsIn :
    (names : Names) (servlen port flags : ℕ) → FitsIn servlen (serv_text names servlen port flags)
serv_text-FitsIn names servlen port flags =
    let (text, e) = serv_text_cut names servlen port flags in rw e (cut-FitsIn servlen text)

module _ (names : Names)
    (printed : (family : ℕ) (addr : Bytes) (size : ℕ)
      → FitsIn size (names.inet_ntop family addr size)) where
  host_name-FitsIn :
      (hostlen flags : ℕ) (addr : Bytes) (family : ℕ) (o : Option Bytes)
      → 0 < hostlen
      → FitsIn hostlen (host_name names hostlen flags addr family o)
  unfolding host_name
  host_name-FitsIn hostlen flags addr family (some name) h =
      snprintf-lt hostlen (short_name flags name) h
  host_name-FitsIn hostlen flags addr family none h =
      FitsIn-if hostlen (has_flag flags ni_namereqd) none (names.inet_ntop family addr hostlen) tt
        (printed family addr hostlen)

  host_text-FitsIn :
      (hostlen : ℕ) (addr : Bytes) (family flags : ℕ)
      → 0 < hostlen
      → FitsIn hostlen (host_text names hostlen addr family flags)
  unfolding host_text
  host_text-FitsIn hostlen addr family flags h =
      FitsIn-if hostlen (has_flag flags ni_numerichost) (names.inet_ntop family addr hostlen) _
        (printed family addr hostlen)
        (host_name-FitsIn hostlen flags addr family (names.gethostbyaddr addr family) h)

  gn_ipv46-BothFit :
      (hostlen servlen : ℕ) (addr : Bytes) (family port flags : ℕ)
      → BothFit hostlen servlen (gn_ipv46 names hostlen servlen addr family port flags)
  unfolding gn_ipv46
  gn_ipv46-BothFit zero servlen addr family port flags =
      (tt, serv_text-FitsIn names servlen port flags)
  gn_ipv46-BothFit (suc n) servlen addr family port flags =
      let serv = serv_text-FitsIn names servlen port flags in
      if-BothFit (suc n) servlen (suc n == 0) _ _ (tt, serv)
        (with_serv-BothFit (suc n) servlen _ _
          (host_text-FitsIn (suc n) addr family flags (omega arith)) serv)

  -- getnameinfo never writes past a buffer: each text, with its null byte, fits the size given, if
  -- the texts of inet_ntop do.
  pub getnameinfo-BothFit :
      (x : Address) (hostlen servlen flags : ℕ)
      → BothFit hostlen servlen (getnameinfo names x hostlen servlen flags)
  unfolding getnameinfo
  getnameinfo-BothFit (inet port addr) hostlen servlen flags =
      gn_ipv46-BothFit hostlen servlen addr 2 port flags
  getnameinfo-BothFit (inet6 port addr) hostlen servlen flags =
      gn_ipv46-BothFit hostlen servlen addr 10 port flags
  getnameinfo-BothFit (unix path) hostlen servlen flags =
      (cut-FitsIn hostlen (codes "/local"), cut-FitsIn servlen path)
  getnameinfo-BothFit (other family) hostlen servlen flags = tt

-- What a numeric service is good for.
abbrev pub ReadBack : ℕ → NameResult → Type 0
ReadBack port unnamed = Unit
ReadBack port (named host none) = ⊥
ReadBack port (named host (some serv)) = htons (atoi serv) ≡ port

with_serv-ReadBack :
    (port : ℕ) (host : Option Bytes) (serv : Bytes)
    → htons (atoi serv) ≡ port
    → ReadBack port (with_serv host (some serv))
with_serv-ReadBack port none serv h = tt
with_serv-ReadBack port (some host) serv h = h

if-ReadBack :
    (port : ℕ) (b : Bool) (x y : NameResult)
    → ReadBack port x
    → ReadBack port y
    → ReadBack port (if b then x else y)
if-ReadBack port true x y h k = h
if-ReadBack port false x y h k = k

htons-atoi-decimal : (port : ℕ) → port < 2 ^ 16 → htons (atoi (decimal (htons port))) ≡ port
htons-atoi-decimal port small = rw (atoi-decimal (htons port)) (omega arith)

module _ (names : Names) (servlen port flags : ℕ) (room : 6 ≤ servlen)
    (numeric : has_flag flags ni_numericserv ≡ true) (small : port < 2 ^ 16) where
  serv_text_number : serv_text names servlen port flags ≡ some (decimal (htons port))
  unfolding serv_text
  serv_text_number =
      let written_to : (servlen == 0) ≡ false = ground arith in
      let whole : snprintf servlen (decimal (htons port)) ≡ decimal (htons port) =
        snprintf_all servlen (decimal (htons port))
          (omega (arith, length-decimal (htons port) (omega arith))) in
      rw (written_to, numeric, whole) refl

  gn_ipv46-ReadBack :
      (hostlen : ℕ) (addr : Bytes) (family : ℕ)
      → ReadBack port (gn_ipv46 names hostlen servlen addr family port flags)
  unfolding gn_ipv46
  gn_ipv46-ReadBack hostlen addr family = rw serv_text_number (
      if-ReadBack port (hostlen == 0) _ _ (htons-atoi-decimal port small) (
        with_serv-ReadBack port (host_text names hostlen addr family flags) (decimal (htons port))
          (htons-atoi-decimal port small)))

-- Where getnameinfo gives the service of an address with a port as a number, in a buffer of at least
-- six bytes, the text is what ga_serv makes the same port of: htons of atoi.
pub getnameinfo-ReadBack :
    (names : Names) (x : Address) (hostlen servlen flags port : ℕ)
    → sock_get_port x ≡ some port
    → port < 2 ^ 16
    → 6 ≤ servlen
    → has_flag flags ni_numericserv ≡ true
    → ReadBack port (getnameinfo names x hostlen servlen flags)
unfolding getnameinfo sock_get_port
getnameinfo-ReadBack names (inet q addr) hostlen servlen flags port e small room numeric =
    let same : q ≡ port = ground arith in
    rw same (gn_ipv46-ReadBack names servlen port flags room numeric small hostlen addr 2)
getnameinfo-ReadBack names (inet6 q addr) hostlen servlen flags port e small room numeric =
    let same : q ≡ port = ground arith in
    rw same (gn_ipv46-ReadBack names servlen port flags room numeric small hostlen addr 10)
getnameinfo-ReadBack names _ hostlen servlen flags port e small room numeric = absurd (cc)
