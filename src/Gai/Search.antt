-- ===== src/Gai/Search.antt =====
-- unp/unpv13e/libgai/ga_nsearch.c: the names and families to look up.
use cpplearn.Common.{
  ℕ, ◌≡◌, ◌≢◌, ◌↔◌, ◌||◌, Option, none, some, List, [], ◌∷◌, Bytes, codes, length, if◌then◌else◌,
  ◌==◌, has_flag, All, arith,
}
use cpplearn.Gai.Defs.{af_unspec, af_inet, af_inet6, ai_passive, AddrInfo, Search, is_blank}

abbrev entry : Bytes → ℕ → Search
entry host family = record { host = host; family = family }

-- The three switches, on the family, have one shape: with both families IPv6 comes first.
entries : ℕ → Bytes → Bytes → List Search
entries family host4 host6 =
    if family == af_inet
    then entry host4 af_inet ∷ []
    else if family == af_inet6
    then entry host6 af_inet6 ∷ []
    else if family == af_unspec
    then entry host6 af_inet6 ∷ entry host4 af_inet ∷ []
    else []

abbrev name_or_empty : Option Bytes → Bytes
name_or_empty none = []
name_or_empty (some s) = s

-- What `search` holds before the final test.
fill_search : Option Bytes → AddrInfo → List Search
unfolding entries
fill_search hostname hints =
    if is_blank hostname
    then if has_flag hints.ai_flags ai_passive
      then entries hints.ai_family (codes "0.0.0.0") (codes "0::0")
      else entries hints.ai_family (codes "localhost") (codes "0::1")
    else entries hints.ai_family (name_or_empty hostname) (name_or_empty hostname)

-- `none` is the call of `err_quit`, which ends the process.
unfoldable pub ga_nsearch : Option Bytes → AddrInfo → Option (List Search)
unfolding fill_search
ga_nsearch hostname hints =
    let search = fill_search hostname hints in
    if length search == 0
    then none
    else if length search == 1 || length search == 2
    then some search
    else none

-- A name and its family in the search list of a call.
abbrev pub families : List Search → List ℕ
families [] = []
families (s ∷ rest) = s.family ∷ families rest

-- The process is ended exactly when the family is none of the three of the Internet.
pub ga_nsearch-eq-none_iff :
    (hostname : Option Bytes) (hints : AddrInfo)
    → (ga_nsearch hostname hints ≡ none)
      ↔ ((hints.ai_family ≢ af_unspec) × (hints.ai_family ≢ af_inet) × (hints.ai_family ≢ af_inet6))
unfolding ga_nsearch
ga_nsearch-eq-none_iff hostname hints = ground arith

-- A search has one entry for the family that is asked for, or one for each family, IPv6 first.
pub ga_nsearch-families :
    (hostname : Option Bytes) (hints : AddrInfo) {search : List Search}
    → ga_nsearch hostname hints ≡ some search
    → families search
      ≡ (if hints.ai_family == af_unspec then af_inet6 ∷ af_inet ∷ [] else hints.ai_family ∷ [])
unfolding ga_nsearch
ga_nsearch-families hostname hints h = ground arith

-- A host that is named is what every entry of the search looks up.
pub ga_nsearch_host :
    (c : ℕ) (name : Bytes) (hints : AddrInfo) {search : List Search}
    → ga_nsearch (some (c ∷ name)) hints ≡ some search
    → All (λ s. s.host ≡ c ∷ name) search
unfolding ga_nsearch
ga_nsearch_host c name hints h = ground arith
