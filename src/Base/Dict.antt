-- ===== src/Base/Dict.antt =====
-- A JavaScript `Map` with string keys: entries in insertion order, a `set` on a present key keeps
-- its place.
use mathlib.Core.Path.{◌≡◌, refl}
use mathlib.Core.List.{List, [], ◌∷◌}
use mathlib.Core.Option.{Option, none, some}
use native.Mathlib.Omega.{arith}
use opauque_stellar.Base.Tests.{if◌then◌else◌}
use opauque_stellar.Base.Strings.{Text, same, same→eq, same_refl}

module _ {ℓ} {V : Type ℓ} where
  -- m.get(k)
  unfoldable pub get : Text → List (Text × V) → Option V
  get k [] = none
  get k ((j, v) ∷ m) = if same j k then some v else get k m

  -- m.set(k, v)
  unfoldable pub set : Text → V → List (Text × V) → List (Text × V)
  set k v [] = (k, v) ∷ []
  set k v ((j, w) ∷ m) = if same j k then (j, v) ∷ m else (j, w) ∷ set k v m

  -- m.delete(k)
  unfoldable pub delete : Text → List (Text × V) → List (Text × V)
  delete k [] = []
  delete k ((j, w) ∷ m) = if same j k then delete k m else (j, w) ∷ delete k m

  -- m.values()
  unfoldable pub values : List (Text × V) → List V
  values [] = []
  values ((j, w) ∷ m) = w ∷ values m

  pub get-set :
      (k j : Text) (v : V) (m : List (Text × V))
      → get j (set k v m) ≡ (if same k j then some v else get j m)
  unfolding get set
  get-set k j v [] = refl
  get-set k j v ((i, w) ∷ m) =
      ground
        (arith, same→eq i k, same→eq i j, same→eq k j, same_refl k, same_refl j, get-set k j v m)

  pub get-set_self : (k : Text) (v : V) (m : List (Text × V)) → get k (set k v m) ≡ some v
  get-set_self k v m = ground (arith, get-set k k v m, same_refl k)

  pub get-delete :
      (k j : Text) (m : List (Text × V)) → get j (delete k m) ≡ (if same k j then none else get j m)
  unfolding get delete
  get-delete k j [] = ground arith
  get-delete k j ((i, w) ∷ m) =
      ground
        (arith, same→eq i k, same→eq i j, same→eq k j, same_refl k, same_refl j, get-delete k j m)

  pub get-delete_self : (k : Text) (m : List (Text × V)) → get k (delete k m) ≡ none
  get-delete_self k m = ground (arith, get-delete k k m, same_refl k)

  pub get-nil : (k : Text) → get k [] ≡ none
  unfolding get
  get-nil k = refl

pub ruleset map_laws = (get-set, get-delete, get-nil)
