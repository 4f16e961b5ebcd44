-- ===== src/Feed/Public.antt =====
-- isPublicIP and the check of the resolved addresses in ValidatePublicURL.
use rtbh_panel.Common.{◌+◌, ◌*◌, ◌^◌, Bool, true, false, not, ◌&&◌, List, [], ◌∷◌, if◌then◌else◌}
use rtbh_panel.Common.Lists.{any}
use rtbh_panel.Net.Addr.{Addr, is_valid, unmap}
use rtbh_panel.Net.Prefix.{Prefix, p4, p6, contains}

-- The prefixes of the source, with their addresses as numbers.
abbrev pub blocked_prefixes : List Prefix
blocked_prefixes =
    p4 0 8
    ∷ p4 0x0a000000 8
    ∷ p4 0x64400000 10
    ∷ p4 0x7f000000 8
    ∷ p4 0xa9fe0000 16
    ∷ p4 0xac100000 12
    ∷ p4 0xc0000000 24
    ∷ p4 0xc0586300 24
    ∷ p4 0xc0000200 24
    ∷ p4 0xc0a80000 16
    ∷ p4 0xc6120000 15
    ∷ p4 0xc6336400 24
    ∷ p4 0xcb007100 24
    ∷ p4 0xf0000000 4
    ∷ p6 (0x0100 * 2 ^ 112) 64
    ∷ p6 (0x0064 * 2 ^ 112 + 0xff9b * 2 ^ 96) 96
    ∷ p6 (0x0064 * 2 ^ 112 + 0xff9b * 2 ^ 96 + 2 ^ 80) 48
    ∷ p6 (0x2001 * 2 ^ 112) 23
    ∷ p6 (0x2001 * 2 ^ 112 + 0x0db8 * 2 ^ 96) 32
    ∷ p6 (0x2002 * 2 ^ 112) 16
    ∷ p6 (0xfc00 * 2 ^ 112) 7
    ∷ []

-- The classes of addresses that net/netip tells apart.
pub record AddrClasses : Type 0 where
  pub is_global_unicast : Addr → Bool
  pub is_private : Addr → Bool
  pub is_loopback : Addr → Bool
  pub is_link_local_unicast : Addr → Bool

abbrev public_unmapped : AddrClasses → Addr → Bool
public_unmapped net address =
    is_valid address
    && (net.is_global_unicast address
        && (not (net.is_private address)
            && (not (net.is_loopback address)
                && (not (net.is_link_local_unicast address)
                    && not (any (λ prefix. contains prefix address) blocked_prefixes)))))

-- isPublicIP
unfoldable pub is_public_ip : AddrClasses → Addr → Bool
is_public_ip net address = public_unmapped net (unmap address)

-- The checks on the addresses of a host, by ValidatePublicURL and again when a connection is made.
unfoldable pub all_public : AddrClasses → List Addr → Bool
all_public net [] = true
all_public net (address ∷ rest) =
    if not (is_public_ip net address) then false else all_public net rest

unfoldable pub resolves_public : AddrClasses → List Addr → Bool
resolves_public net [] = false
resolves_public net (address ∷ rest) = all_public net (address ∷ rest)
