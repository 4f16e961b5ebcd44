-- ===== src/Feed/Unique.antt =====
-- The prefixes that ParseList returns.
use rtbh_panel.Common.{
  ◌≡◌, refl, Bool, true, false, Option, none, some, List, [], ◌∷◌, arith, Bool-cases, inl, inr,
}
use rtbh_panel.Common.Lists.{All, All-append_one, member, distinct, distinct-append_one}
use rtbh_panel.Net.Prefix.{Prefix, discrete, masked}
use rtbh_panel.Net.Overlap.{masked-masked}
use rtbh_panel.Feed.Parse.{
  Line, add_prefix, add_all, parse_from, parse_list, expand_ip_v4_to_slash32, line_prefix, expands,
  add_line,
}

-- What the list keeps while it grows.
record IsFeed (l : List Prefix) : Type 0 where
  unique : distinct discrete l ≡ true
  canonical : All (λ p. masked p ≡ p) l

add_prefix-IsFeed : (l : List Prefix) (p : Prefix) → IsFeed l → IsFeed (add_prefix l p)
unfolding add_prefix
add_prefix-IsFeed l p f = elim (Bool-cases (member discrete (masked p) l)) [
  | inl e ↦ rw e f
  | inr e ↦ rw e (record {
    unique = distinct-append_one discrete (masked p) l f.unique e;
    canonical = All-append_one _ l (masked p) f.canonical (masked-masked p);
  })
]

add_all-IsFeed : (l ps : List Prefix) → IsFeed l → IsFeed (add_all l ps)
unfolding add_all
add_all-IsFeed l [] f = f
add_all-IsFeed l (p ∷ ps) f = add_all-IsFeed (add_prefix l p) ps (add_prefix-IsFeed l p f)

add_line-IsFeed :
    (e : Bool) (l : List Prefix) (o : Option Prefix) → IsFeed l → IsFeed (add_line e l o)
add_line-IsFeed e l none f = f
add_line-IsFeed e l (some p) f = elim (Bool-cases (expands e (masked p))) [
  | inl h ↦ rw h (add_all-IsFeed l (expand_ip_v4_to_slash32 (masked p)) f)
  | inr h ↦ rw h (add_prefix-IsFeed l (masked p) f)
]

parse_from-IsFeed :
    (e : Bool) (l : List Prefix) (lines : List Line) → IsFeed l → IsFeed (parse_from e l lines)
unfolding parse_from
parse_from-IsFeed e l [] f = f
parse_from-IsFeed e l (line ∷ rest) f =
    parse_from-IsFeed e (add_line e l (line_prefix line)) rest
      (add_line-IsFeed e l (line_prefix line) f)

-- The prefixes that ParseList returns when the reading succeeds are masked, and none stands in the
-- list twice.
pub parse_list_unique :
    (expand_slash24 : Bool) (lines : List Line) (l : List Prefix)
    → parse_list false expand_slash24 lines ≡ some l
    → (distinct discrete l ≡ true) × All (λ p. masked p ≡ p) l
unfolding parse_list distinct
parse_list_unique e lines l h =
    let good = parse_from-IsFeed e [] lines (record { unique = refl; canonical = tt }) in
    let same : parse_from e [] lines ≡ l = ground arith in rw⁻¹ same (good.unique, good.canonical)
