-- ===== src/Net/Overlap.antt =====
-- Two prefixes are nested or disjoint, so the addresses of prefixes decide whether they overlap.
use rtbh_panel.Common.{
  ℕ, ◌≤◌, ◌≡◌, refl, sym, ◌⊎◌, inl, inr, ◌∙◌, Bool, true, ◌||◌, arith, Bool-cases, ◌==◌, dec_le,
  ◌/◌,
}
use rtbh_panel.Net.Addr.{Addr, ip4, ip6}
use rtbh_panel.Net.Prefix.{
  is_valid, Prefix, no_prefix, p4, p6, addr, contains, masked, block, IsWell,
}
use rtbh_panel.Net.Masks.{mask-div, div_coarser}

-- Each contains the other's address, or the other way round.
unfoldable pub overlap : Prefix → Prefix → Bool
overlap p q = contains p (addr q) || contains q (addr p)

meet :
    (w p b q c a : ℕ)
    → b ≤ w
    → c ≤ w
    → p / block w b ≡ a / block w b
    → q / block w c ≡ a / block w c
    → (p / block w b ≡ q / block w b) ⊎ (q / block w c ≡ p / block w c)
meet w p b q c a hb hc e f = elim (dec_le b c) [
  | yes h ↦ inl (e ∙ sym (div_coarser w b c q a h hc f))
  | no h ↦ inr (f ∙ sym (div_coarser w c b p a (omega arith) hb e))
]

-- Prefixes that share an address overlap.
pub contains→overlap :
    (p q : Prefix) (a : Addr)
    → IsWell p
    → IsWell q
    → contains p a ≡ true
    → contains q a ≡ true
    → overlap p q ≡ true
unfolding contains overlap
contains→overlap (p4 p b) (p4 q c) (ip4 a) hp hq e f = ground (arith, meet 32 p b q c a)
contains→overlap (p6 p b) (p6 q c) (ip6 a z) hp hq e f = ground (arith, meet 128 p b q c a)
contains→overlap p q a hp hq e f = ground arith

-- Prefixes that overlap share an address.
pub overlap→contains :
    (p q : Prefix) → overlap p q ≡ true → (a : Addr) × (contains p a ≡ true) × (contains q a ≡ true)
unfolding contains overlap
overlap→contains (p4 p b) (p4 q c) h = elim (Bool-cases ((p / block 32 b) == (q / block 32 b))) [
  | inl e ↦ (ip4 q, ground arith, ground arith)
  | inr e ↦ (ip4 p, ground arith, ground arith)
]
overlap→contains (p6 p b) (p6 q c) h = elim (Bool-cases ((p / block 128 b) == (q / block 128 b))) [
  | inl e ↦ (ip6 q "", ground arith, ground arith)
  | inr e ↦ (ip6 p "", ground arith, ground arith)
]
overlap→contains no_prefix no_prefix h = cc
overlap→contains no_prefix (p4 q c) h = cc
overlap→contains no_prefix (p6 q c) h = cc
overlap→contains (p4 p b) no_prefix h = cc
overlap→contains (p4 p b) (p6 q c) h = cc
overlap→contains (p6 p b) no_prefix h = cc
overlap→contains (p6 p b) (p4 q c) h = cc

-- Masking a prefix keeps the addresses that it contains.
pub contains-masked : (p : Prefix) (a : Addr) → contains (masked p) a ≡ contains p a
unfolding contains masked
contains-masked (p4 p b) (ip4 a) = rw mask-div
contains-masked (p6 p b) (ip6 a z) = rw mask-div
contains-masked p a = ground arith

pub masked-masked : (p : Prefix) → masked (masked p) ≡ masked p
unfolding masked
masked-masked no_prefix = refl
masked-masked (p4 p b) = rw mask-div
masked-masked (p6 p b) = rw mask-div

pub is_valid-masked : (p : Prefix) → is_valid p ≡ true → is_valid (masked p) ≡ true
unfolding masked
is_valid-masked no_prefix h = h
is_valid-masked (p4 p b) h = refl
is_valid-masked (p6 p b) h = refl
