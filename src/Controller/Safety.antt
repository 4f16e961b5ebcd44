-- ===== src/Controller/Safety.antt =====
-- What the effective routes never cover.
use rtbh_panel.Common.{true, false, ◌||◌, ◌≡◌, some, List, [], ◌∷◌, arith, Bool-cases, inl, inr}
use rtbh_panel.Common.Lists.{any, member}
use rtbh_panel.Common.Assoc.{lookup}
use rtbh_panel.Net.Addr.{Addr}
use rtbh_panel.Net.Prefix.{Prefix, addr, contains, discrete, IsWell}
use rtbh_panel.Net.Overlap.{overlap, contains→overlap, overlap→contains}
use rtbh_panel.Policy.{Time}
use rtbh_panel.Engine.Route.{Route}
use rtbh_panel.Controller.Routes.{suppressed, effective_routes, lookup-effective_routes}

suppressed_of_member :
    (whitelist : List Prefix) (p q : Prefix)
    → member discrete q whitelist ≡ true
    → overlap p q ≡ true
    → suppressed whitelist p ≡ true
unfolding suppressed any member overlap
suppressed_of_member [] p q m h = absurd (ground arith)
suppressed_of_member (x ∷ whitelist) p q m h = ground (arith, suppressed_of_member whitelist p q)

suppressed→member :
    (whitelist : List Prefix) (p : Prefix)
    → suppressed whitelist p ≡ true
    → (q : Prefix) × (member discrete q whitelist ≡ true) × (overlap p q ≡ true)
unfolding suppressed any member overlap
suppressed→member [] p h = absurd (ground arith)
suppressed→member (x ∷ whitelist) p h =
    elim (Bool-cases (contains p (addr x) || contains x (addr p))) [
      | inl e ↦ (x, ground arith, e)
      | inr e ↦ let (q, m, o) = suppressed→member whitelist p (ground arith) in (q, ground arith, o)
    ]

-- A prefix that stands among the effective routes contains no address of a whitelist prefix,
-- whatever the sizes of the two, if both are well formed.
pub no_whitelisted_address :
    (blocklist whitelist : List Prefix) (expirations : List (Prefix × Time)) (now : Time)
    (hop_v4 hop_v6 : Addr) (p q : Prefix) (r : Route) (a : Addr)
    → IsWell p
    → IsWell q
    → lookup discrete p (effective_routes whitelist expirations now hop_v4 hop_v6 blocklist)
      ≡ some r
    → member discrete q whitelist ≡ true
    → contains q a ≡ true
    → contains p a ≡ false
no_whitelisted_address bl wl ex now h4 h6 p q r a wp wq found listed inside =
    elim (Bool-cases (contains p a)) [
      | inr e ↦ e
      | inl e ↦
          let s = suppressed_of_member wl p q listed (contains→overlap p q a wp wq e inside) in
          absurd (ground (arith, lookup-effective_routes wl ex now h4 h6 p bl))
    ]

-- A prefix that the whitelist suppresses shares an address with a prefix of the whitelist.
pub suppressed_shares_address :
    (whitelist : List Prefix) (p : Prefix)
    → suppressed whitelist p ≡ true
    → (q : Prefix) × (a : Addr) × (member discrete q whitelist ≡ true)
      × (contains p a ≡ true)
      × (contains q a ≡ true)
suppressed_shares_address whitelist p h =
    let (q, m, o) = suppressed→member whitelist p h in
    let (a, inp, inq) = overlap→contains p q o in (q, a, m, inp, inq)
