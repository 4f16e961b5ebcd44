-- ===== src/Engine/Settings.antt =====
-- Config.validate of the engine.
use rtbh_panel.Common.{
  ℕ, ◌<◌, Bool, true, false, not, ◌||◌, ◌≡◌, ◌≢◌, ◌↔◌, refl, Option, none, some, List, [], ◌∷◌,
  if◌then◌else◌, ◌==◌, ltb, arith,
}
use rtbh_panel.Common.Lists.{any, All}
use rtbh_panel.Net.Addr.{Addr}
use rtbh_panel.Net.Addr
use rtbh_panel.Net.Prefix.{Prefix}
use rtbh_panel.Net.Prefix

-- An int32 port; -1 disables listening.
pub data Port : Type 0 where
  port : ℕ → Port
  minus : ℕ → Port

pub record Config : Type 0 where
  pub local_asn : ℕ
  pub router_id : Addr
  pub listen_port : Port
  pub listen_ranges : List Prefix
  pub allowed_asns : List ℕ
  pub max_sessions : ℕ

pub data Error : Type 0 where
  zero_asn bad_router_id port_out_of_range no_ranges bad_range no_sessions zero_allowed : Error

-- c.ListenPort < -1 || c.ListenPort == 0 || c.ListenPort > 65535; `minus n` is -n
abbrev pub bad_port : Port → Bool
bad_port (port n) = n == 0 || ltb 65535 n
bad_port (minus n) = n == 0 || ltb 1 n

abbrev is_empty {ℓ} : {A : Type ℓ} → List A → Bool
is_empty [] = true
is_empty (x ∷ xs) = false

unfoldable pub validate : Config → Option Error
validate c =
    if c.local_asn == 0
    then some zero_asn
    else if not (Addr.is_valid c.router_id) || not (Addr.is4 c.router_id)
    then some bad_router_id
    else if bad_port c.listen_port
    then some port_out_of_range
    else if is_empty c.listen_ranges
    then some no_ranges
    else if any (λ r. not (Prefix.is_valid r)) c.listen_ranges
    then some bad_range
    else if ltb c.max_sessions 1
    then some no_sessions
    else if any (λ a. a == 0) c.allowed_asns
    then some zero_allowed
    else none

pub record IsUsable (c : Config) : Type 0 where
  pub asn : c.local_asn ≢ 0
  pub router : Addr.is4 c.router_id ≡ true
  pub listening : bad_port c.listen_port ≡ false
  pub ranged : c.listen_ranges ≢ []
  pub ranges : All (λ r. Prefix.is_valid r ≡ true) c.listen_ranges
  pub sessions : 0 < c.max_sessions
  pub numbered : All (λ a. a ≢ 0) c.allowed_asns

valid_ranges :
    (l : List Prefix)
    → any (λ r. not (Prefix.is_valid r)) l ≡ false
    → All (λ r. Prefix.is_valid r ≡ true) l
unfolding any
valid_ranges [] h = tt
valid_ranges (r ∷ l) h = (ground arith, valid_ranges l (ground arith))

any_range :
    (l : List Prefix)
    → All (λ r. Prefix.is_valid r ≡ true) l
    → any (λ r. not (Prefix.is_valid r)) l ≡ false
unfolding any
any_range [] h = refl
any_range (r ∷ l) h = ground (arith, any_range l h.1)

nonzero_asns : (l : List ℕ) → any (λ a. a == 0) l ≡ false → All (λ a. a ≢ 0) l
unfolding any
nonzero_asns [] h = tt
nonzero_asns (a ∷ l) h = (ground arith, nonzero_asns l (ground arith))

any_asn : (l : List ℕ) → All (λ a. a ≢ 0) l → any (λ a. a == 0) l ≡ false
unfolding any
any_asn [] h = refl
any_asn (a ∷ l) h = ground (arith, any_asn l h.1)

-- A configuration passes exactly when every one of its fields is usable.
pub validate-IsUsable : (c : Config) → (validate c ≡ none) ↔ IsUsable c
unfolding validate
validate-IsUsable c = (
  λ h. record {
    asn = ground arith;
    router = ground arith;
    listening = ground arith;
    ranged = ground arith;
    ranges = valid_ranges c.listen_ranges (ground arith);
    sessions = ground arith;
    numbered = nonzero_asns c.allowed_asns (ground arith);
  },
  λ u. ground (arith, any_range c.listen_ranges u.ranges, any_asn c.allowed_asns u.numbered),
)
