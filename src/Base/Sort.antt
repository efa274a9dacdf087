-- ===== src/Base/Sort.antt =====
-- sort.Slice(result, by name): the entries of a map have distinct names, so that any correct sort
-- gives the list that insertion gives.
use mathlib.Core.List.{List, [], ◌∷◌}
use blitzy_localgcp.Base.Tests.{if◌then◌else◌}
use blitzy_localgcp.Base.Text.{Str, str_ltb}

module _ {ℓ} {A : Type ℓ} (name : A → Str) where
  unfoldable pub insert_sorted : A → List A → List A
  insert_sorted a [] = a ∷ []
  insert_sorted a (x ∷ xs) =
      if str_ltb (name x) (name a) then x ∷ insert_sorted a xs else a ∷ x ∷ xs

  unfoldable pub sort_by_name : List A → List A
  unfolding insert_sorted
  sort_by_name [] = []
  sort_by_name (x ∷ xs) = insert_sorted x (sort_by_name xs)
