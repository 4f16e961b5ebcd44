-- ===== src/Net/Masks.antt =====
-- Division by the blocks of prefixes: one block divides a wider one.
use native.Mathlib.Nat.{pow-suc, div-div-eq-div-mul, mul-div_cancel, mul_assoc}
use rtbh_panel.Common.{ℕ, zero, suc, ◌+◌, ◌-◌, ◌*◌, ◌/◌, ◌^◌, ◌≤◌, ◌<◌, ◌≡◌, sym, ap, ◌∙◌, arith}
use rtbh_panel.Net.Prefix.{block, mask}

pub pow-pos : (n : ℕ) → 0 < 2 ^ n
pow-pos zero = omega arith
pow-pos (suc n) = rw pow-suc (omega (arith, pow-pos n))

pub pow-add : (m n : ℕ) → 2 ^ (m + n) ≡ 2 ^ m * 2 ^ n
pow-add m zero = let e : m + zero ≡ m = omega arith in rw e (omega arith)
pow-add m (suc n) =
    let e : m + suc n ≡ suc (m + n) = omega arith in
    rw (e, pow-suc 2 (m + n), pow-suc 2 n, pow-add m n) (mul_assoc (2 ^ m) (2 ^ n) 2)

-- Masking keeps the network part.
pub mask-div : (w b a : ℕ) → mask w b a / block w b ≡ a / block w b
mask-div w b a = mul-div_cancel (a / block w b) (pow-pos (w - b))

-- The network part for fewer bits is computed from the one for more bits.
pub div_coarser :
    (w b c x y : ℕ) → b ≤ c → c ≤ w → x / block w c ≡ y / block w c → x / block w b ≡ y / block w b
div_coarser w b c x y h k e = block-div x ∙ ap (λ n. n / 2 ^ (c - b)) e ∙ sym (block-div y)
  where
    split : w - b ≡ (w - c) + (c - b)
    split = omega arith

    block-div : (n : ℕ) → n / block w b ≡ n / block w c / 2 ^ (c - b)
    block-div n = rw (split, pow-add (w - c) (c - b)) (sym (div-div-eq-div-mul n _ _))
