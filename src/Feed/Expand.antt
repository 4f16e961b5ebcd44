-- ===== src/Feed/Expand.antt =====
-- The /32 prefixes of an IPv4 prefix are the addresses in it.
use native.Mathlib.Nat.{le-div_iff_mul-le, div-lt_iff_lt-mul, suc-mul, mul-le-mul_right}
use rtbh_panel.Common.{
  ℕ, zero, suc, ◌+◌, ◌-◌, ◌*◌, ◌/◌, ◌^◌, ◌≤◌, ◌<◌, ◌&&◌, ◌≡◌, refl, ◌↔◌, ap, ◌∙◌, arith, leb, ltb,
  ◌==◌,
}
use rtbh_panel.Common.Lists.{length, any}
use rtbh_panel.Net.Addr.{ip4}
use rtbh_panel.Net.Prefix.{p4, contains, masked, from, block, mask}
use rtbh_panel.Net.Masks.{pow-pos, pow-add}
use rtbh_panel.Feed.Parse.{hosts, expand_ip_v4_to_slash32}

length-hosts : (base i count : ℕ) → length (hosts base i count) ≡ count
unfolding hosts
length-hosts base i zero = refl
length-hosts base i (suc count) = ap suc (length-hosts base (suc i) count)

any-hosts :
    (base i count x : ℕ)
    → base + i + count ≤ 2 ^ 32
    → any (λ h. contains h (ip4 x)) (hosts base i count)
      ≡ leb (base + i) x && ltb x (base + i + count)
unfolding hosts any contains from
any-hosts base i zero x h = ground arith
any-hosts base i (suc count) x h = ground (arith, any-hosts base (suc i) count x)

-- A block of k numbers that starts at a multiple of k.
block_iff : (k q x : ℕ) → 0 < k → (q == (x / k)) ≡ leb (q * k) x && ltb x (q * k + k)
block_iff k q x h =
    let low : (q ≤ x / k) ↔ (q * k ≤ x) = le-div_iff_mul-le h in
    let high : (x / k < suc q) ↔ (x < suc q * k) = div-lt_iff_lt-mul h in
    let wide : suc q * k ≡ q * k + k = suc-mul q k in
    ground (arith, low.0, low.1, high.0, high.1, wide)

-- The last block of an IPv4 prefix ends within 2^32.
block_end : (b a : ℕ) → b ≤ 32 → a < 2 ^ 32 → mask 32 b a + block 32 b ≤ 2 ^ 32
block_end b a h l =
    let k = block 32 b in
    let pos : 0 < k = pow-pos (32 - b) in
    let whole : 2 ^ 32 ≡ 2 ^ b * k = (ap (λ n. 2 ^ n) (the_sum b h)) ∙ pow-add b (32 - b) in
    let low : a / k < 2 ^ b = (div-lt_iff_lt-mul pos).1 (rw⁻¹ whole l) in
    let grow : suc (a / k) * k ≤ 2 ^ b * k = mul-le-mul_right k low in
    let wide : suc (a / k) * k ≡ a / k * k + k = suc-mul (a / k) k in
    omega (arith, whole, grow, wide)
  where
    the_sum : (b : ℕ) → b ≤ 32 → 32 ≡ b + (32 - b)
    the_sum b h = omega arith

-- An IPv4 prefix of 16 to 31 bits is expanded to as many /32 prefixes as it has addresses, and an
-- address lies in one of them exactly if it lies in the prefix.
pub expand_ip_v4_to_slash32_covers :
    (a b x : ℕ)
    → 16 ≤ b
    → b < 32
    → a < 2 ^ 32
    → (length (expand_ip_v4_to_slash32 (p4 a b)) ≡ 2 ^ (32 - b))
      × (any (λ h. contains h (ip4 x)) (expand_ip_v4_to_slash32 (p4 a b))
          ≡ contains (p4 a b) (ip4 x))
unfolding expand_ip_v4_to_slash32 masked contains
expand_ip_v4_to_slash32_covers a b x l h m =
    let base = mask 32 b a in
    let count = block 32 b in
    let ends = block_end b a (omega arith) m in
    let size = length-hosts base 0 count in
    let found = any-hosts base 0 count x (omega arith) in
    let lies = block_iff count (a / count) x (pow-pos (32 - b)) in
    (ground (arith, size), ground (arith, found, lies))
