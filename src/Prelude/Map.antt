-- ===== src/Prelude/Map.antt =====
-- `HashMap` keyed by file names, as an association list. No code of the repository depends on the
-- order in which a map is walked.
use mathlib.Core.Path.{◌≡◌}
use mathlib.Core.Option.{Option, none, some}
use mathlib.Core.List.{List, [], ◌∷◌}
use native.Mathlib.Omega.{arith}
use cedana_image_streamer.Prelude.Tests.{if◌then◌else◌}
use cedana_image_streamer.Prelude.Names.{Bytes, ◌=?=◌, =?=_iff}

abbrev pub Map {ℓ} : Type ℓ → Type ℓ
Map V = List (Bytes × V)

module _ {ℓ} {V : Type ℓ} where
  unfoldable pub get : Bytes → Map V → Option V
  get k [] = none
  get k ((j, v) ∷ m) = if j =?= k then some v else get k m

  -- The map without a key.
  unfoldable pub without : Bytes → Map V → Map V
  without k [] = []
  without k ((j, v) ∷ m) = let rest = without k m in if j =?= k then rest else (j, v) ∷ rest

  unfoldable pub insert : Bytes → V → Map V → Map V
  unfolding without
  insert k v m = (k, v) ∷ without k m

  pub get-without :
      (k j : Bytes) (m : Map V) → get j (without k m) ≡ (if k =?= j then none else get j m)
  unfolding get without
  get-without k j [] = ground arith
  get-without k j ((i, v) ∷ m) =
      ground (arith, get-without k j m, =?=_iff i k, =?=_iff i j, =?=_iff k j)

  pub get-insert :
      (k j : Bytes) (v : V) (m : Map V)
      → get j (insert k v m) ≡ (if k =?= j then some v else get j m)
  unfolding get insert
  get-insert k j v m = ground (arith, get-without k j m)
