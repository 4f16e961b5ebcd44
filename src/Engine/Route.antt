-- ===== src/Engine/Route.antt =====
-- Routes, and the path that routePath builds of one for GoBGP.
use rtbh_panel.Common.{
  ℕ, Bool, false, not, ◌&&◌, ◌||◌, Option, none, some, List, [], ◌∷◌, if◌then◌else◌,
}
use rtbh_panel.Net.Addr.{Addr}
use rtbh_panel.Net.Addr
use rtbh_panel.Net.Prefix.{Prefix, addr}
use rtbh_panel.Net.Prefix

pub record Route : Type 0 where
  pub prefix : Prefix
  pub next_hop : Addr
  pub communities : List ℕ

-- RFC 7999, 65535:666
abbrev pub blackhole_community : ℕ
blackhole_community = 0xffff029a

pub data Family : Type 0 where
  ipv4_unicast ipv6_unicast : Family

pub data Attr : Type 0 where
  origin_incomplete : Attr
  next_hop : Addr → Attr
  mp_reach : Prefix → Addr → Attr
  communities : List ℕ → Attr

-- apiutil.Path. GoBGP's constructors check what routePath has checked, so their errors are left out.
pub record BgpPath : Type 0 where
  pub family : Family
  pub nlri : Prefix
  pub attrs : List Attr
  pub withdrawal : Bool

same_family : Addr → Addr → Bool
same_family a b = (Addr.is4 a && Addr.is4 b) || (not (Addr.is4 a) && not (Addr.is4 b))

abbrev community_attrs : List ℕ → List Attr
community_attrs [] = []
community_attrs (c ∷ cs) = communities (c ∷ cs) ∷ []

unfoldable pub route_path : Route → Option BgpPath
unfolding same_family
route_path r =
    if not (Prefix.is_valid r.prefix) || not (Addr.is_valid r.next_hop)
    then none
    else if not (same_family (addr r.prefix) r.next_hop)
    then none
    else some (record {
      family = if Addr.is6 (addr r.prefix) then ipv6_unicast else ipv4_unicast;
      nlri = r.prefix;
      attrs =
          origin_incomplete
          ∷ (if Addr.is4 (addr r.prefix) then next_hop r.next_hop else mp_reach r.prefix r.next_hop)
          ∷ community_attrs r.communities;
      withdrawal = false;
    })
