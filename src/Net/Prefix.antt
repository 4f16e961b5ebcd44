-- ===== src/Net/Prefix.antt =====
-- netip.Prefix.
use rtbh_panel.Common.{
  ℕ, ◌-◌, ◌*◌, ◌/◌, ◌^◌, ◌≤◌, ◌<◌, Bool, true, false, ◌&&◌, ◌==◌, ◌≡◌, leb, if◌then◌else◌, str_eq,
  ℕ_discrete,
}
use rtbh_panel.Net.Addr.{Addr, no_addr, ip4, ip6}

pub data Prefix : Type 0 where
  no_prefix : Prefix
  p4 : ℕ → ℕ → Prefix
  p6 : ℕ → ℕ → Prefix

unfoldable pub discrete : Discrete Prefix
discrete = hlevel ℕ_discrete

-- The number of addresses of a prefix with b bits in a family of w bits.
abbrev pub block : ℕ → ℕ → ℕ
block w b = 2 ^ (w - b)

abbrev pub mask : ℕ → ℕ → ℕ → ℕ
mask w b a = a / block w b * block w b

abbrev pub is_valid : Prefix → Bool
is_valid no_prefix = false
is_valid _ = true

-- Addr()
abbrev pub addr : Prefix → Addr
addr no_prefix = no_addr
addr (p4 a b) = ip4 a
addr (p6 a b) = ip6 a ""

-- netip.PrefixFrom drops a zone, and marks a count of bits that does not fit as invalid.
unfoldable pub from : Addr → ℕ → Prefix
from no_addr b = no_prefix
from (ip4 a) b = if leb b 32 then p4 a b else no_prefix
from (ip6 a z) b = if leb b 128 then p6 a b else no_prefix

unfoldable pub masked : Prefix → Prefix
masked no_prefix = no_prefix
masked (p4 a b) = p4 (mask 32 b a) b
masked (p6 a b) = p6 (mask 128 b a) b

-- The bits above the host part agree. An address with a zone lies in no prefix, and a mapped
-- address in no IPv4 prefix.
unfoldable pub contains : Prefix → Addr → Bool
contains (p4 p b) (ip4 a) = (p / block 32 b) == (a / block 32 b)
contains (p6 p b) (ip6 a z) = str_eq z "" && ((p / block 128 b) == (a / block 128 b))
contains _ _ = false

-- What ParsePrefix and PrefixFrom give: the bits fit the family.
abbrev pub IsWell : Prefix → Type 0
IsWell no_prefix = Unit
IsWell (p4 a b) = (a < 2 ^ 32) × (b ≤ 32)
IsWell (p6 a b) = (a < 2 ^ 128) × (b ≤ 128)

abbrev pub IsCanonical : Prefix → Type 0
IsCanonical p = p ≡ masked p
