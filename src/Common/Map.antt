-- ===== src/Common/Map.antt =====
-- `HashMap` and `HashSet` as association lists and lists without repetition. The order of the list
-- stands for the order of an iteration, which the source's collections leave open.
use mathlib.Core.Path.{◌≡◌, refl}
use mathlib.Core.Logic.{◌≢◌, ◌⊎◌, inl, inr}
use mathlib.Core.Bool.{Bool, false, not, ◌&&◌, ◌||◌}
use mathlib.Core.Option.{Option, none, some}
use mathlib.Core.List.{List, [], ◌∷◌}
use native.Mathlib.Omega.{arith}
use nautilus_messaging_relay.Common.Lists.{In}
use nautilus_messaging_relay.Common.Tests.{if◌then◌else◌, Eq, ◌==◌}

module _ {ℓ κ} {K : Type κ} {V : Type ℓ} ⦃e : Eq K⦄ where
  unfoldable pub lookup : K → List (K × V) → Option V
  lookup k [] = none
  lookup k ((j, v) ∷ m) = if k == j then some v else lookup k m

  unfoldable pub insert : K → V → List (K × V) → List (K × V)
  insert k v [] = (k, v) ∷ []
  insert k v ((j, w) ∷ m) = if k == j then (k, v) ∷ m else (j, w) ∷ insert k v m

  -- Every entry with the key goes; in a map there is one at most.
  unfoldable pub remove : K → List (K × V) → List (K × V)
  remove k [] = []
  remove k ((j, w) ∷ m) = let rest = remove k m in if k == j then rest else (j, w) ∷ rest

  pub lookup-insert :
      (k j : K) (v : V) (m : List (K × V))
      → lookup j (insert k v m) ≡ (if j == k then some v else lookup j m)
  unfolding lookup insert
  lookup-insert k j v [] = refl
  lookup-insert k j v ((i, w) ∷ m) = ground (arith, lookup-insert k j v m)

  -- What a lookup after an insertion can return.
  pub lookup-insert-cases :
      (k j : K) (v w : V) (m : List (K × V))
      → lookup j (insert k v m) ≡ some w
      → ((j ≡ k) × (v ≡ w)) ⊎ ((j ≢ k) × (lookup j m ≡ some w))
  lookup-insert-cases k j v w m h = ground (arith, lookup-insert k j v m)

  pub lookup-remove :
      (k j : K) (m : List (K × V)) → lookup j (remove k m) ≡ (if j == k then none else lookup j m)
  unfolding lookup remove
  lookup-remove k j [] = ground arith
  lookup-remove k j ((i, w) ∷ m) = ground (arith, lookup-remove k j m)

module _ {K V : Type 0} ⦃e : Eq K⦄ where
  -- No key stands twice.
  abbrev pub DistinctKeys : List (K × V) → Type 0
  DistinctKeys [] = Unit
  DistinctKeys ((k, v) ∷ m) = (lookup k m ≡ none) × DistinctKeys m

  pub insert-DistinctKeys :
      (k : K) (v : V) (m : List (K × V)) → DistinctKeys m → DistinctKeys (insert k v m)
  unfolding lookup insert
  insert-DistinctKeys k v [] d = (refl, tt)
  insert-DistinctKeys k v ((j, w) ∷ m) (h, d) =
      ground (arith, lookup-insert k j v m, insert-DistinctKeys k v m d)

  -- What a lookup finds is an entry.
  pub In-of_lookup : (k : K) (v : V) (m : List (K × V)) → lookup k m ≡ some v → In (k, v) m
  unfolding lookup
  In-of_lookup k v [] h = absurd (cc)
  In-of_lookup k v ((j, w) ∷ m) h = elim (e.dec k j) [
    | yes p ↦ inl (ground arith)
    | no p ↦ inr (In-of_lookup k v m (ground arith))
  ]

  -- Where no key stands twice an entry is what a lookup finds.
  pub lookup_of_In :
      (k : K) (v : V) (m : List (K × V)) → DistinctKeys m → In (k, v) m → lookup k m ≡ some v
  unfolding lookup
  lookup_of_In k v [] d h = absurd h
  lookup_of_In k v ((j, w) ∷ m) (a, d) h = elim h [
    | inl p ↦ ground arith
    | inr q ↦ ground (arith, lookup_of_In k v m d q)
  ]

module _ {ℓ} {A : Type ℓ} ⦃e : Eq A⦄ where
  unfoldable pub contains : A → List A → Bool
  contains a [] = false
  contains a (x ∷ xs) = a == x || contains a xs

  unfoldable pub set_insert : A → List A → List A
  unfolding contains
  set_insert a xs = if contains a xs then xs else a ∷ xs

  unfoldable pub set_remove : A → List A → List A
  set_remove a [] = []
  set_remove a (x ∷ xs) = let rest = set_remove a xs in if a == x then rest else x ∷ rest

  pub contains-set_insert :
      (a b : A) (xs : List A) → contains a (set_insert b xs) ≡ (a == b || contains a xs)
  unfolding set_insert contains
  contains-set_insert a b xs = ground arith

  pub contains-set_remove :
      (a b : A) (xs : List A) → contains a (set_remove b xs) ≡ (not (a == b) && contains a xs)
  unfolding set_remove contains
  contains-set_remove a b [] = ground arith
  contains-set_remove a b (x ∷ xs) = ground (arith, contains-set_remove a b xs)
