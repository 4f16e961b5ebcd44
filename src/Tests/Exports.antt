-- ===== src/Tests/Exports.antt =====
-- An evaluation of GoBGP's policies, and what the engine exports by it.
use rtbh_panel.Common.{
  ℕ, ◌≡◌, refl, ◌∙◌, String, Bool, true, false, ◌||◌, Option, none, some, List, [], ◌∷◌, str_eq,
  if◌then◌else◌, arith, ℕ_discrete,
}
use text.Mathlib.TextEquality.{eq_iff}
use rtbh_panel.Common.Lists.{member}
use rtbh_panel.Engine.Route.{
  next_hop as next_hop_attr, ipv4_unicast, origin_incomplete, communities, Route,
  blackhole_community, route_path, BgpPath,
}
use rtbh_panel.Engine.Export.{
  DefinedSet, MatchSet, any_of, Statement, Policy, RouteAction, Evaluator, Documented, any_named,
  is_accept, build_rtbh_export_policy, build_peer_group, path_communities,
}
use rtbh_panel.Engine.Exported.{passes_blackhole}
use rtbh_panel.Tests.Samples.{ten, next_hop}

-- How a policy is evaluated: the first statement that holds decides.
unfoldable value : String → Option ℕ
value text = if str_eq text "65535:666" then some blackhole_community else none

unfoldable named_in : List String → List ℕ → Bool
unfolding value
named_in [] l = false
named_in (text ∷ texts) l =
    elim (value text) [ none ↦ false | some n ↦ member ℕ_discrete n l ] || named_in texts l

unfoldable holds : List DefinedSet → MatchSet → List ℕ → Bool
holds [] m l = false
holds (s ∷ sets) (any_of name) l =
    if str_eq s.name name then named_in s.list l else holds sets (any_of name) l

unfoldable decide : List DefinedSet → List Statement → List ℕ → Option RouteAction
decide sets [] l = none
decide sets (st ∷ rest) l =
    if holds sets st.community_set l then some st.route_action else decide sets rest l

unfoldable decide_all : List DefinedSet → List Policy → RouteAction → List ℕ → RouteAction
decide_all sets [] a l = a
decide_all sets (p ∷ policies) a l = elim (decide sets p.statements l) [
  | some b ↦ b
  | none ↦ decide_all sets policies a l
]

abbrev evaluator : Evaluator
evaluator = record {
  community = value;
  holds = holds;
  passes = λ sets a l. is_accept (decide_all sets a.policies a.default_action l);
}

named_in-any_named :
    (texts : List String) (l : List ℕ) → named_in texts l ≡ any_named evaluator texts l
unfolding named_in
named_in-any_named [] l = refl
named_in-any_named (t ∷ texts) l = ground (arith, named_in-any_named texts l)

same_name :
    (s : DefinedSet) (sets : List DefinedSet) (l : List ℕ)
    → holds (s ∷ sets) (any_of s.name) l ≡ named_in s.list l
unfolding holds
same_name s sets l = let same = (eq_iff s.name s.name).1 refl in ground (arith, same)

decided :
    (sets : List DefinedSet) (name : String) (st : Statement) (rest : List Statement)
    (policies : List Policy) (a : RouteAction) (l : List ℕ)
    → holds sets st.community_set l ≡ true
    → is_accept (decide_all sets (record { name = name; statements = st ∷ rest } ∷ policies) a l)
      ≡ is_accept st.route_action
unfolding decide_all decide
decided sets name st rest policies a l h = ground arith

undecided :
    (sets : List DefinedSet) (name : String) (st : Statement) (rest : List Statement)
    (policies : List Policy) (a : RouteAction) (l : List ℕ)
    → holds sets st.community_set l ≡ false
    → is_accept (decide_all sets (record { name = name; statements = st ∷ rest } ∷ policies) a l)
      ≡ is_accept (decide_all sets (record { name = name; statements = rest } ∷ policies) a l)
unfolding decide_all decide
undecided sets name st rest policies a l h = ground arith

abbrev documented : Documented evaluator
documented = record {
  halves = unfold value in refl;
  matching = λ s sets l. same_name s sets l ∙ named_in-any_named s.list l;
  no_policy = λ sets d a l. unfold decide_all in refl;
  statement_holds = λ sets d name st rest policies a l h. decided sets name st rest policies a l h;
  statement_fails =
      λ sets d name st rest policies a l h. undecided sets name st rest policies a l h;
  policy_ends = λ sets d name policies a l. unfold decide_all in unfold decide in refl;
}

abbrev route : Route
route = record { prefix = ten; next_hop = next_hop; communities = blackhole_community ∷ [] }

abbrev path : BgpPath
path = record {
  family = ipv4_unicast;
  nlri = ten;
  attrs = origin_incomplete ∷ next_hop_attr next_hop ∷ communities (blackhole_community ∷ []) ∷ [];
  withdrawal = false;
}

passes_blackhole_example :
    evaluator.passes
      (build_rtbh_export_policy.0 ∷ [])
      build_peer_group.export_policy
      (path_communities path.attrs)
    ≡ member ℕ_discrete blackhole_community route.communities
passes_blackhole_example =
    passes_blackhole evaluator documented route path (unfold route_path in refl)
