-- ===== src/Net/Addr.antt =====
-- netip.Addr.
use rtbh_panel.Common.{ℕ, ◌-◌, ◌*◌, ◌/◌, ◌^◌, String, Bool, true, false, ◌==◌, if◌then◌else◌}

pub data Addr : Type 0 where
  no_addr : Addr
  ip4 : ℕ → Addr
  ip6 : ℕ → String → Addr

abbrev pub is_valid : Addr → Bool
is_valid no_addr = false
is_valid _ = true

abbrev pub is4 : Addr → Bool
is4 (ip4 a) = true
is4 _ = false

abbrev pub is6 : Addr → Bool
is6 (ip6 a z) = true
is6 _ = false

-- Unmap: the IPv4-mapped IPv6 address ::ffff:a.b.c.d becomes the IPv4 address.
unfoldable pub unmap : Addr → Addr
unmap (ip6 a z) = if (a / 2 ^ 32) == 0xffff then ip4 (a - 0xffff * 2 ^ 32) else ip6 a z
unmap other = other
