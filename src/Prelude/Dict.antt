-- ===== src/Prelude/Dict.antt =====
-- Python dictionaries with text keys: association lists in the order of insertion.
use mathlib.Core.Path.{◌≡◌, refl}
use mathlib.Core.Bool.{Bool, false, ◌||◌, ◌&&◌, not}
use mathlib.Core.Logic.{inl, inr}
use mathlib.Core.List.{List, [], ◌∷◌}
use mathlib.Core.Option.{Option, none, some}
use native.Mathlib.Omega.{arith}
use Prim.Native.String.{String}
use text.Mathlib.Text.{◌==◌ as str_eq}
use text.Mathlib.TextEquality.{eq_iff}
use systeme_local.Prelude.Tests.{if◌then◌else◌, Bool-cases}
use systeme_local.Prelude.Lists.{All}

module _ {ℓ} {V : Type ℓ} where
  -- `key in dict`
  abbrev pub has_key : String → List (String × V) → Bool
  has_key k [] = false
  has_key k ((j, v) ∷ d) = str_eq j k || has_key k d

  -- `dict.get(key)`
  abbrev pub dict_get : String → List (String × V) → Option V
  dict_get k [] = none
  dict_get k ((j, v) ∷ d) = if str_eq j k then some v else dict_get k d

  -- `dict[key] = value`
  unfoldable pub dict_set : String → V → List (String × V) → List (String × V)
  dict_set k v [] = (k, v) ∷ []
  dict_set k v ((j, w) ∷ d) = if str_eq j k then (k, v) ∷ d else (j, w) ∷ dict_set k v d

  -- what `dict.pop(key, None)` leaves
  unfoldable pub dict_pop : String → List (String × V) → List (String × V)
  dict_pop k [] = []
  dict_pop k ((j, v) ∷ d) = let rest = dict_pop k d in if str_eq j k then rest else (j, v) ∷ rest

  pub has_key-dict_set :
      (k j : String) (v : V) (d : List (String × V))
      → has_key j (dict_set k v d) ≡ (str_eq k j || has_key j d)
  unfolding dict_set
  has_key-dict_set k j v [] = refl
  has_key-dict_set k j v ((i, w) ∷ d) =
      ground (arith, eq_iff i k, eq_iff i j, eq_iff k j, has_key-dict_set k j v d)

  pub has_key-dict_pop :
      (k j : String) (d : List (String × V))
      → has_key j (dict_pop k d) ≡ (not (str_eq k j) && has_key j d)
  unfolding dict_pop
  has_key-dict_pop k j [] = ground arith
  has_key-dict_pop k j ((i, w) ∷ d) =
      ground (arith, eq_iff i k, eq_iff i j, eq_iff k j, has_key-dict_pop k j d)

  pub All-dict_set {κ} :
      (P : String × V → Type κ) (k : String) (v : V) (d : List (String × V))
      → P (k, v)
      → All P d
      → All P (dict_set k v d)
  unfolding dict_set
  All-dict_set P k v [] p h = (p, h)
  All-dict_set P k v ((j, w) ∷ d) p h = elim (Bool-cases (str_eq j k)) [
    | inl e ↦ rw e (p, h.1)
    | inr e ↦ rw e (h.0, All-dict_set P k v d p h.1)
  ]

  pub All-dict_pop {κ} :
      (P : String × V → Type κ) (k : String) (d : List (String × V))
      → All P d
      → All P (dict_pop k d)
  unfolding dict_pop
  All-dict_pop P k [] h = h
  All-dict_pop P k ((j, w) ∷ d) h = elim (Bool-cases (str_eq j k)) [
    | inl e ↦ rw e (All-dict_pop P k d h.1)
    | inr e ↦ rw e (h.0, All-dict_pop P k d h.1)
  ]
