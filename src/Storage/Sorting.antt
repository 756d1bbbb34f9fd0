-- ===== src/Storage/Sorting.antt =====
-- `sort_by_key` of the standard library on signed keys: a stable sort, here by insertion.
use nautilus_messaging_relay.Common.{ℤ, ltb_ℤ, if◌then◌else◌, List, [], ◌∷◌}

module _ {A : Type 0} (key : A → ℤ) where
  unfoldable pub insert_by_key : A → List A → List A
  insert_by_key x [] = x ∷ []
  insert_by_key x (y ∷ ys) = if ltb_ℤ (key y) (key x) then y ∷ insert_by_key x ys else x ∷ y ∷ ys

  unfoldable pub sort_by_key : List A → List A
  unfolding insert_by_key
  sort_by_key [] = []
  sort_by_key (x ∷ xs) = insert_by_key x (sort_by_key xs)
