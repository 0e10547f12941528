-- ===== src/Prelude/Dict.antt =====
-- `HashMap<String, V>` as an association list. The program never relies on the order of a map.
use Prim.Native.String.{String}
use mathlib.Core.Path.{◌≡◌, refl}
use mathlib.Core.Option.{Option, none, some}
use mathlib.Core.List.{List, [], ◌∷◌}
use native.Mathlib.Omega.{arith}
use text.Mathlib.Text.{◌==◌ as str_eq}
use text.Mathlib.TextEquality.{eq_iff}
use paper_plane.Prelude.Tests.{if◌then◌else◌}

abbrev pub Dict {ℓ} : Type ℓ → Type ℓ
Dict V = List (String × V)

module _ {ℓ} {V : Type ℓ} where
  unfoldable pub lookup : String → Dict V → Option V
  lookup key [] = none
  lookup key ((other, value) ∷ d) = if str_eq other key then some value else lookup key d

  unfoldable pub insert : String → V → Dict V → Dict V
  insert key value [] = (key, value) ∷ []
  insert key value ((other, u) ∷ d) =
      if str_eq other key then (key, value) ∷ d else (other, u) ∷ insert key value d

  unfoldable pub remove : String → Dict V → Dict V
  remove key [] = []
  remove key ((other, u) ∷ d) =
      let rest = remove key d in if str_eq other key then rest else (other, u) ∷ rest

  abbrev pub keys : Dict V → List String
  keys [] = []
  keys ((other, u) ∷ d) = other ∷ keys d

  pub lookup-insert :
      (key other : String) (value : V) (d : Dict V)
      → lookup other (insert key value d)
        ≡ (if str_eq key other then some value else lookup other d)
  unfolding lookup insert
  lookup-insert key other value [] = refl
  lookup-insert key other value ((first, u) ∷ d) = ground (
    arith,
    lookup-insert key other value d,
    eq_iff first other,
    eq_iff first key,
    eq_iff key other,
  )

  pub lookup-remove :
      (key other : String) (d : Dict V)
      → lookup other (remove key d) ≡ (if str_eq key other then none else lookup other d)
  unfolding lookup remove
  lookup-remove key other [] = ground arith
  lookup-remove key other ((first, u) ∷ d) =
      ground
        (arith, eq_iff key other, eq_iff first key, eq_iff first other, lookup-remove key other d)
