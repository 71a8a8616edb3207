-- ===== src/Prelude/Assoc.antt =====
-- `HashMap<String, V>` as an association list. The program uses no order of iteration but one that
-- it sorts itself, so the order of the entries is not observable.
use mathlib.Core.Path.{◌≡◌, refl}
use mathlib.Core.Option.{Option, none, some}
use mathlib.Core.List.{List, [], ◌∷◌}
use native.Mathlib.Omega.{arith}
use ferroxy.Prelude.Tests.{if◌then◌else◌}
use ferroxy.Prelude.Text.{Text, text_eq, text_eq_iff}

abbrev pub Assoc {ℓ} : Type ℓ → Type ℓ
Assoc V = List (Text × V)

module _ {ℓ} {V : Type ℓ} where
  unfoldable pub lookup : Text → Assoc V → Option V
  lookup k [] = none
  lookup k ((j, v) ∷ m) = if text_eq j k then some v else lookup k m

  unfoldable pub insert : Text → V → Assoc V → Assoc V
  insert k v [] = (k, v) ∷ []
  insert k v ((j, w) ∷ m) = if text_eq j k then (j, v) ∷ m else (j, w) ∷ insert k v m

  -- `m.entry(k).or_insert(v)` followed by an update `f` of the entry.
  unfoldable pub upsert : Text → V → (V → V) → Assoc V → Assoc V
  upsert k v f [] = (k, f v) ∷ []
  upsert k v f ((j, w) ∷ m) = if text_eq j k then (j, f w) ∷ m else (j, w) ∷ upsert k v f m

  -- `for v in m.values_mut() { f(v) }`
  unfoldable pub map_values : (V → V) → Assoc V → Assoc V
  map_values f [] = []
  map_values f ((j, w) ∷ m) = (j, f w) ∷ map_values f m

  abbrev pub or_default : V → Option V → V
  or_default v none = v
  or_default v (some w) = w

  pub lookup-insert :
      (k j : Text) (v : V) (m : Assoc V)
      → lookup j (insert k v m) ≡ (if text_eq k j then some v else lookup j m)
  unfolding lookup insert
  lookup-insert k j v [] = refl
  lookup-insert k j v ((i, w) ∷ m) =
      ground (arith, text_eq_iff k j, text_eq_iff i k, text_eq_iff i j, lookup-insert k j v m)

  pub lookup-upsert :
      (k j : Text) (v : V) (f : V → V) (m : Assoc V)
      → lookup j (upsert k v f m)
        ≡ (if text_eq k j then some (f (or_default v (lookup j m))) else lookup j m)
  unfolding lookup upsert
  lookup-upsert k j v f [] = refl
  lookup-upsert k j v f ((i, w) ∷ m) =
      ground (arith, text_eq_iff k j, text_eq_iff i k, text_eq_iff i j, lookup-upsert k j v f m)
