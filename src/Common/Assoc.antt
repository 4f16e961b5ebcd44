-- ===== src/Common/Assoc.antt =====
-- A Go map as an association list. A map has no order: theorems about code that ranges over a map
-- hold for every order of its entries.
use Prim.Native.Nat.{◌+◌, ◌≤◌}
use mathlib.Core.Path.{◌≡◌, refl}
use mathlib.Core.Logic.{ite}
use mathlib.Core.Option.{Option, none, some}
use mathlib.Core.List.{List, [], ◌∷◌, ◌++◌, map}
use native.Mathlib.Omega.{arith}
use rtbh_panel.Common.Lists.{length, member, distinct}
use rtbh_panel.Common.Tests.{is_some}
use mathlib.Core.Bool.{true, false}

module _ {ℓ} {K V : Type ℓ} where
  abbrev pub keys : List (K × V) → List K
  keys = map (λ e. e.0)

module _ {ℓ} {K V : Type ℓ} (dec : Discrete K) where
  -- v, ok := m[k]
  unfoldable pub lookup : K → List (K × V) → Option V
  lookup k [] = none
  lookup k ((j, v) ∷ m) = ite (dec j k) (some v) (lookup k m)

  -- m[k] = v
  unfoldable pub insert : K → V → List (K × V) → List (K × V)
  insert k v [] = (k, v) ∷ []
  insert k v ((j, w) ∷ m) = ite (dec j k) ((k, v) ∷ m) ((j, w) ∷ insert k v m)

  -- delete(m, k)
  unfoldable pub delete : K → List (K × V) → List (K × V)
  delete k [] = []
  delete k ((j, w) ∷ m) = let rest = delete k m in ite (dec j k) rest ((j, w) ∷ rest)

  pub lookup-insert :
      (k j : K) (v : V) (m : List (K × V))
      → lookup j (insert k v m) ≡ ite (dec k j) (some v) (lookup j m)
  unfolding lookup insert
  lookup-insert k j v [] = refl
  lookup-insert k j v ((i, w) ∷ m) = ground (arith, lookup-insert k j v m)

  pub lookup-delete :
      (k j : K) (m : List (K × V)) → lookup j (delete k m) ≡ ite (dec k j) none (lookup j m)
  unfolding lookup delete
  lookup-delete k j [] = ground arith
  lookup-delete k j ((i, w) ∷ m) = ground (arith, lookup-delete k j m)

  pub length-insert-le : (k : K) (v : V) (m : List (K × V)) → length (insert k v m) ≤ length m + 1
  unfolding insert
  length-insert-le k v [] = omega arith
  length-insert-le k v ((j, w) ∷ m) = ground (arith, length-insert-le k v m)

  pub length-insert_present :
      (k : K) (v w : V) (m : List (K × V)) → lookup k m ≡ some w → length (insert k v m) ≡ length m
  unfolding insert lookup
  length-insert_present k v w [] h = cc
  length-insert_present k v w ((j, x) ∷ m) h = ground (arith, length-insert_present k v w m)

  pub length-delete-le : (k : K) (m : List (K × V)) → length (delete k m) ≤ length m
  unfolding delete
  length-delete-le k [] = omega arith
  length-delete-le k ((j, w) ∷ m) = ground (arith, length-delete-le k m)

-- At the level of the program's data, since Booleans and options of values meet in one proof.
module _ {K V : Type 0} (dec : Discrete K) where
  pub keys-insert :
      (k : K) (v w : V) (m : List (K × V))
      → lookup dec k m ≡ some w
      → keys (insert dec k v m) ≡ keys m
  unfolding insert lookup
  keys-insert k v w [] h = cc
  keys-insert k v w ((j, x) ∷ m) h = ground (arith, keys-insert k v w m)

  pub member-keys : (k : K) (m : List (K × V)) → member dec k (keys m) ≡ is_some (lookup dec k m)
  unfolding member lookup
  member-keys k [] = refl
  member-keys k ((j, v) ∷ m) = ground (arith, member-keys k m)

  member-keys-insert :
      (k j : K) (v : V) (m : List (K × V))
      → member dec j (keys (insert dec k v m)) ≡ ite (dec k j) true (member dec j (keys m))
  unfolding member insert
  member-keys-insert k j v [] = refl
  member-keys-insert k j v ((i, w) ∷ m) = ground (arith, member-keys-insert k j v m)

  member-keys-delete :
      (k j : K) (m : List (K × V))
      → member dec j (keys (delete dec k m)) ≡ ite (dec k j) false (member dec j (keys m))
  unfolding member delete
  member-keys-delete k j [] = ground arith
  member-keys-delete k j ((i, w) ∷ m) = ground (arith, member-keys-delete k j m)

  pub distinct-keys-insert :
      (k : K) (v : V) (m : List (K × V))
      → distinct dec (keys m) ≡ true
      → distinct dec (keys (insert dec k v m)) ≡ true
  unfolding distinct insert
  distinct-keys-insert k v [] h = unfold member in refl
  distinct-keys-insert k v ((j, w) ∷ m) h =
      ground (arith, distinct-keys-insert k v m, member-keys-insert k j v m)

  pub distinct-keys-delete :
      (k : K) (m : List (K × V))
      → distinct dec (keys m) ≡ true
      → distinct dec (keys (delete dec k m)) ≡ true
  unfolding distinct delete
  distinct-keys-delete k [] h = refl
  distinct-keys-delete k ((j, w) ∷ m) h =
      ground (arith, distinct-keys-delete k m, member-keys-delete k j m)

  pub insert_absent :
      (k : K) (v : V) (m : List (K × V))
      → lookup dec k m ≡ none
      → insert dec k v m ≡ m ++ (k, v) ∷ []
  unfolding lookup insert
  insert_absent k v [] h = refl
  insert_absent k v ((j, w) ∷ m) h = ground (arith, insert_absent k v m)

  pub lookup_absent :
      (k : K) (m : List (K × V)) → member dec k (keys m) ≡ false → lookup dec k m ≡ none
  unfolding lookup member
  lookup_absent k [] h = refl
  lookup_absent k ((j, w) ∷ m) h = ground (arith, lookup_absent k m)
