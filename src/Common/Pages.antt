-- ===== src/Common/Pages.antt =====
-- A list read page by page.
use Prim.Native.Nat.{ℕ, zero, suc, ◌+◌, ◌*◌, ◌≤◌}
use mathlib.Core.Path.{◌≡◌, ap, sym, ◌∙◌}
use mathlib.Core.List.{List, [], ◌++◌}
use native.Mathlib.Omega.{arith}
use rtbh_panel.Common.Lists.{length, take, drop, take_add, take_long}

module _ {A : Type 0} (limit : ℕ) where
  -- The first n pages, one after the other.
  unfoldable pub pages : ℕ → List A → List A
  pages zero l = []
  pages (suc n) l = pages n l ++ take limit (drop (n * limit) l)

  pages-take : (n : ℕ) (l : List A) → pages n l ≡ take (n * limit) l
  unfolding pages take
  pages-take zero l = let none : 0 ≡ 0 * limit = omega arith in ap (λ k. take k l) none
  pages-take (suc n) l =
      let more : suc n * limit ≡ n * limit + limit = omega arith in
      ap (λ first. first ++ take limit (drop (n * limit) l)) (pages-take n l)
      ∙ sym (take_add (n * limit) limit l)
      ∙ ap (λ k. take k l) (sym more)

  -- Enough pages hold the whole list, in its order.
  pub pages_all : (n : ℕ) (l : List A) → length l ≤ n * limit → pages n l ≡ l
  pages_all n l h = pages-take n l ∙ take_long (n * limit) l h
