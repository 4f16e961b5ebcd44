-- ===== src/Engine/Export.antt =====
-- buildRTBHExportPolicy and buildPeerGroup: the policies that the engine sets for its peer group,
-- with GoBGP's evaluation of a list of policies as a parameter.
use rtbh_panel.Common.{
  ℕ, ◌+◌, ◌*◌, ◌^◌, String, Bool, true, false, ◌||◌, ◌≡◌, Option, none, some, List, [], ◌∷◌, arith,
}
use rtbh_panel.Common.{ℕ_discrete}
use rtbh_panel.Common.Lists.{member}
use rtbh_panel.Engine.Route.{
  Route, Attr, communities, origin_incomplete, next_hop, mp_reach, BgpPath, route_path,
}

pub data DefinedType : Type 0 where
  community : DefinedType

pub record DefinedSet : Type 0 where
  pub defined_type : DefinedType
  pub name : String
  pub list : List String

pub data RouteAction : Type 0 where
  accept reject : RouteAction

pub data Direction : Type 0 where
  export : Direction

-- The condition of a statement: the community set of this name, with match type ANY.
pub data MatchSet : Type 0 where
  any_of : String → MatchSet

pub record Statement : Type 0 where
  pub name : String
  pub community_set : MatchSet
  pub route_action : RouteAction

pub record Policy : Type 0 where
  pub name : String
  pub statements : List Statement

-- A direction that is not set is none.
pub record PolicyAssignment : Type 0 where
  pub direction : Option Direction
  pub policies : List Policy
  pub default_action : RouteAction

pub record PeerGroup : Type 0 where
  pub name : String
  pub peer_asn : ℕ
  pub passive_mode : Bool
  pub import_policy : PolicyAssignment
  pub export_policy : PolicyAssignment

abbrev pub rtbh_community_set_name : String
rtbh_community_set_name = "rtbh-blackhole-community"

abbrev pub rtbh_export_policy_name : String
rtbh_export_policy_name = "rtbh-export-only-blackhole"

abbrev pub rtbh_set : DefinedSet
rtbh_set = record {
  defined_type = community;
  name = rtbh_community_set_name;
  list = "65535:666" ∷ [];
}

abbrev pub rtbh_statement : Statement
rtbh_statement = record {
  name = "accept-rfc7999-blackhole";
  community_set = any_of rtbh_community_set_name;
  route_action = accept;
}

abbrev pub rtbh_policy : Policy
rtbh_policy = record { name = rtbh_export_policy_name; statements = rtbh_statement ∷ [] }

unfoldable pub build_rtbh_export_policy : DefinedSet × Policy × PolicyAssignment
build_rtbh_export_policy = (
  rtbh_set,
  rtbh_policy,
  record { direction = some export; policies = rtbh_policy ∷ []; default_action = reject },
)

unfoldable pub build_peer_group : PeerGroup
unfolding build_rtbh_export_policy
build_peer_group =
    let (_, policy, assignment) = build_rtbh_export_policy in
    record {
      name = "rtbh-dynamic";
      peer_asn = 0;
      passive_mode = true;
      import_policy = record { direction = none; policies = []; default_action = reject };
      export_policy = record assignment { policies = policy ∷ [] };
    }

-- The communities that a path carries.
unfoldable pub path_communities : List Attr → List ℕ
path_communities [] = []
path_communities (communities l ∷ attrs) = l
path_communities (origin_incomplete ∷ attrs) = path_communities attrs
path_communities (next_hop a ∷ attrs) = path_communities attrs
path_communities (mp_reach p a ∷ attrs) = path_communities attrs

abbrev pub is_accept : RouteAction → Bool
is_accept accept = true
is_accept reject = false

-- What GoBGP makes of the defined sets and an assignment: whether a condition holds for a list of
-- communities, and whether the assignment lets a path with these communities through.
pub record Evaluator : Type 0 where
  pub community : String → Option ℕ
  pub holds : List DefinedSet → MatchSet → List ℕ → Bool
  pub passes : List DefinedSet → PolicyAssignment → List ℕ → Bool

abbrev pub named : Evaluator → String → List ℕ → Bool
named ev text l = elim (ev.community text) [ none ↦ false | some n ↦ member ℕ_discrete n l ]

abbrev pub any_named : Evaluator → List String → List ℕ → Bool
any_named ev [] l = false
any_named ev (text ∷ texts) l = named ev text l || any_named ev texts l

-- GoBGP's documentation: a community is written as two 16-bit halves; ANY holds if one of the set's
-- communities is there; the first statement that holds decides, and the default action is for the
-- paths for which none does.
pub record Documented (ev : Evaluator) : Type 0 where
  pub halves : ev.community "65535:666" ≡ some (65535 * 2 ^ 16 + 666)
  pub matching :
      (s : DefinedSet) (sets : List DefinedSet) (l : List ℕ)
      → ev.holds (s ∷ sets) (any_of s.name) l ≡ any_named ev s.list l
  pub no_policy :
      (sets : List DefinedSet) (d : Option Direction) (a : RouteAction) (l : List ℕ)
      → ev.passes sets (record { direction = d; policies = []; default_action = a }) l ≡ is_accept a
  pub statement_holds :
      (sets : List DefinedSet) (d : Option Direction) (name : String) (st : Statement)
      (rest : List Statement) (policies : List Policy) (a : RouteAction) (l : List ℕ)
      → ev.holds sets st.community_set l ≡ true
      → ev.passes sets
          (record {
            direction = d;
            policies = record { name = name; statements = st ∷ rest } ∷ policies;
            default_action = a;
          })
          l
        ≡ is_accept st.route_action
  pub statement_fails :
      (sets : List DefinedSet) (d : Option Direction) (name : String) (st : Statement)
      (rest : List Statement) (policies : List Policy) (a : RouteAction) (l : List ℕ)
      → ev.holds sets st.community_set l ≡ false
      → ev.passes sets
          (record {
            direction = d;
            policies = record { name = name; statements = st ∷ rest } ∷ policies;
            default_action = a;
          })
          l
        ≡ ev.passes sets
            (record {
              direction = d;
              policies = record { name = name; statements = rest } ∷ policies;
              default_action = a;
            })
            l
  pub policy_ends :
      (sets : List DefinedSet) (d : Option Direction) (name : String) (policies : List Policy)
      (a : RouteAction) (l : List ℕ)
      → ev.passes sets
          (record {
            direction = d;
            policies = record { name = name; statements = [] } ∷ policies;
            default_action = a;
          })
          l
        ≡ ev.passes sets (record { direction = d; policies = policies; default_action = a }) l

-- The communities of a path are those of its route.
pub path_communities-route_path :
    (r : Route) (path : BgpPath)
    → route_path r ≡ some path
    → path_communities path.attrs ≡ r.communities
unfolding route_path path_communities
path_communities-route_path r path h = elim r.communities [
  | [] ↦ ground arith
  | c ∷ cs ↦ ground arith
]
