-- ===== src/Common/Lists.antt =====
-- Go's `slices` functions over an element type with decidable equality, and native lengths.
use Prim.Native.Nat.{ℕ, zero, suc, ◌+◌, ◌-◌, ◌≤◌}
use mathlib.Core.Path.{◌≡◌, refl, subst, ap, sym, ◌∙◌}
use mathlib.Core.Bool.{Bool, true, false, ◌||◌}
use mathlib.Core.Logic.{◌≢◌, ite}
use mathlib.Core.Option
use mathlib.Core.Option.{Option, none, some}
use mathlib.Core.List.{List, [], ◌∷◌, ◌++◌}
use native.Mathlib.Omega.{arith}

module _ {ℓ} {A : Type ℓ} where
  abbrev pub length : List A → ℕ
  length [] = 0
  length (x ∷ xs) = suc (length xs)

  abbrev pub All {κ} : (A → Type κ) → List A → Type κ
  All P [] = Unit
  All P (x ∷ xs) = P x × All P xs

  -- slices.Delete(xs, i, i+1)
  unfoldable pub delete_at : List A → ℕ → List A
  delete_at [] i = []
  delete_at (x ∷ xs) zero = xs
  delete_at (x ∷ xs) (suc i) = x ∷ delete_at xs i

  unfoldable pub filter : (A → Bool) → List A → List A
  filter p [] = []
  filter p (x ∷ xs) = let rest = filter p xs in elim (p x) [ true ↦ x ∷ rest | false ↦ rest ]

  unfoldable pub any : (A → Bool) → List A → Bool
  any p [] = false
  any p (x ∷ xs) = p x || any p xs

  unfoldable pub take : ℕ → List A → List A
  take zero xs = []
  take (suc n) [] = []
  take (suc n) (x ∷ xs) = x ∷ take n xs

  unfoldable pub drop : ℕ → List A → List A
  drop zero xs = xs
  drop (suc n) [] = []
  drop (suc n) (x ∷ xs) = drop n xs

  pub take-drop : (n : ℕ) (l : List A) → take n l ++ drop n l ≡ l
  unfolding take drop
  take-drop zero l = refl
  take-drop (suc n) [] = refl
  take-drop (suc n) (x ∷ l) = ap (λ t. x ∷ t) (take-drop n l)

  pub take_nil : (n : ℕ) → take n [] ≡ []
  unfolding take
  take_nil zero = refl
  take_nil (suc n) = refl

  pub take_add : (m n : ℕ) (l : List A) → take (m + n) l ≡ take m l ++ take n (drop m l)
  unfolding take drop
  take_add zero n l = ap (λ k. take k l) (omega arith)
  take_add (suc m) n [] = take_nil (suc m + n) ∙ sym (take_nil n)
  take_add (suc m) n (x ∷ l) =
      let one : suc m + n ≡ suc (m + n) = omega arith in
      ap (λ k. take k (x ∷ l)) one ∙ ap (λ t. x ∷ t) (take_add m n l)

  pub take_long : (n : ℕ) (l : List A) → length l ≤ n → take n l ≡ l
  unfolding take
  take_long zero [] h = refl
  take_long (suc n) [] h = refl
  take_long zero (x ∷ l) h = absurd (omega (arith, h))
  take_long (suc n) (x ∷ l) h = ap (λ t. x ∷ t) (take_long n l (omega (arith, h)))

  pub drop_long : (n : ℕ) (l : List A) → length l ≤ n → drop n l ≡ []
  unfolding drop
  drop_long zero [] h = refl
  drop_long (suc n) [] h = refl
  drop_long zero (x ∷ l) h = absurd (omega (arith, h))
  drop_long (suc n) (x ∷ l) h = drop_long n l (omega (arith, h))

  pub length-drop : (n : ℕ) (l : List A) → length (drop n l) ≡ length l - n
  unfolding drop
  length-drop zero l = omega arith
  length-drop (suc n) [] = omega arith
  length-drop (suc n) (x ∷ l) = omega (arith, length-drop n l)

  pub length-append : (xs ys : List A) → length (xs ++ ys) ≡ length xs + length ys
  length-append [] ys = omega arith
  length-append (x ∷ xs) ys = omega (arith, length-append xs ys)

  pub length-filter-le : (p : A → Bool) (xs : List A) → length (filter p xs) ≤ length xs
  unfolding filter
  length-filter-le p [] = omega arith
  length-filter-le p (x ∷ xs) = ground (arith, length-filter-le p xs)

  pub any-append : (p : A → Bool) (xs ys : List A) → any p (xs ++ ys) ≡ any p xs || any p ys
  unfolding any
  any-append p [] ys = refl
  any-append p (x ∷ xs) ys = ground (arith, any-append p xs ys)

  pub All-append_one {κ} :
      (P : A → Type κ) (xs : List A) (a : A) → All P xs → P a → All P (xs ++ a ∷ [])
  All-append_one P [] a h k = (k, tt)
  All-append_one P (x ∷ xs) a h k = (h.0, All-append_one P xs a h.1 k)

  pub All-delete_at {κ} : (P : A → Type κ) (xs : List A) (i : ℕ) → All P xs → All P (delete_at xs i)
  unfolding delete_at
  All-delete_at P [] i h = h
  All-delete_at P (x ∷ xs) zero h = h.1
  All-delete_at P (x ∷ xs) (suc i) h = (h.0, All-delete_at P xs i h.1)

module _ {ℓ} {A : Type ℓ} (dec : Discrete A) where
  -- slices.Index; `none` is Go's -1
  unfoldable pub index : A → List A → Option ℕ
  index a [] = none
  index a (x ∷ xs) = ite (dec x a) (some 0) (Option.map suc (index a xs))

  -- slices.Contains
  unfoldable pub member : A → List A → Bool
  member a [] = false
  member a (x ∷ xs) = ite (dec x a) true (member a xs)

  -- No element occurs twice.
  unfoldable pub distinct : List A → Bool
  distinct [] = true
  distinct (x ∷ xs) = elim (member x xs) [ true ↦ false | false ↦ distinct xs ]

  pub index-eq-none→member : (a : A) (xs : List A) → index a xs ≡ none → member a xs ≡ false
  unfolding index member
  index-eq-none→member a [] h = refl
  index-eq-none→member a (x ∷ xs) h = ground (arith, index-eq-none→member a xs)

  pub index-eq-some→member :
      (a : A) (xs : List A) (i : ℕ) → index a xs ≡ some i → member a xs ≡ true
  unfolding index member
  index-eq-some→member a [] i h = cc
  index-eq-some→member a (x ∷ xs) zero h = ground (arith, index-eq-none→member a xs)
  index-eq-some→member a (x ∷ xs) (suc i) h = ground (arith, index-eq-some→member a xs i)

  pub member-append : (a : A) (xs ys : List A) → member a (xs ++ ys) ≡ member a xs || member a ys
  unfolding member
  member-append a [] ys = refl
  member-append a (x ∷ xs) ys = ground (arith, member-append a xs ys)

  pub member-delete_at_ne :
      (a b : A) (xs : List A) (i : ℕ)
      → index a xs ≡ some i
      → b ≢ a
      → member b (delete_at xs i) ≡ member b xs
  unfolding index member delete_at
  member-delete_at_ne a b [] i h n = refl
  member-delete_at_ne a b (x ∷ xs) zero h n = ground arith
  member-delete_at_ne a b (x ∷ xs) (suc i) h n = ground (arith, member-delete_at_ne a b xs i)

  pub member-delete_at_self :
      (a : A) (xs : List A) (i : ℕ)
      → distinct xs ≡ true
      → index a xs ≡ some i
      → member a (delete_at xs i) ≡ false
  unfolding index member delete_at distinct
  member-delete_at_self a [] i d h = refl
  member-delete_at_self a (x ∷ xs) zero d h = ground arith
  member-delete_at_self a (x ∷ xs) (suc i) d h = ground (arith, member-delete_at_self a xs i)

  pub member-delete_at→ :
      (a : A) (xs : List A) (i : ℕ) → member a (delete_at xs i) ≡ true → member a xs ≡ true
  unfolding member delete_at
  member-delete_at→ a [] i h = h
  member-delete_at→ a (x ∷ xs) zero h = ground arith
  member-delete_at→ a (x ∷ xs) (suc i) h = ground (arith, member-delete_at→ a xs i)

  pub distinct-delete_at :
      (xs : List A) (i : ℕ) → distinct xs ≡ true → distinct (delete_at xs i) ≡ true
  unfolding delete_at distinct
  distinct-delete_at [] i d = d
  distinct-delete_at (x ∷ xs) zero d = ground arith
  distinct-delete_at (x ∷ xs) (suc i) d =
      ground (arith, distinct-delete_at xs i, member-delete_at→ x xs i)

  pub distinct-append_one :
      (a : A) (xs : List A)
      → distinct xs ≡ true
      → member a xs ≡ false
      → distinct (xs ++ a ∷ []) ≡ true
  unfolding member distinct
  distinct-append_one a [] d n = refl
  distinct-append_one a (x ∷ xs) d n =
      ground (arith, distinct-append_one a xs, member-append x xs (a ∷ []))

  pub distinct_middle :
      (a : A) (xs ys : List A) → distinct (xs ++ a ∷ ys) ≡ true → member a xs ≡ false
  unfolding distinct member
  distinct_middle a [] ys d = refl
  distinct_middle a (x ∷ xs) ys d =
      ground (arith, distinct_middle a xs ys, member-append x xs (a ∷ ys))

  pub All_of_member {κ} :
      (P : A → Type κ) (a : A) (xs : List A) → All P xs → member a xs ≡ true → P a
  unfolding member
  All_of_member P a [] h m = absurd (ground arith)
  All_of_member P a (x ∷ xs) h m = elim (dec x a) [
    | yes e ↦ subst P e h.0
    | no n ↦ All_of_member P a xs h.1 (ground arith)
  ]
