-- ===== src/Prelude/Names.antt =====
-- Byte strings: file names and pipe contents, and the maps keyed by file names.
use Prim.Native.Nat.{ℕ}
use Prim.Native.String.{String}
use Prim.Native.Char.{code}
use mathlib.Core.Path.{◌≡◌, refl}
use mathlib.Core.Logic.{◌↔◌}
use mathlib.Core.Bool.{Bool, true, false, ◌&&◌}
use mathlib.Core.List.{List, [], ◌∷◌}
use native.Mathlib.Omega.{arith}
use cedana_image_streamer.Prelude.Tests.{◌==◌}

abbrev pub Bytes : Type 0
Bytes = List ℕ

-- A String, as the list of its characters (`chars()`), each by its code point.
abbrev pub Text : Type 0
Text = List ℕ

-- The bytes of an ASCII literal.
abbrev pub codes : String → Bytes
codes String.[] = []
codes (String.◌∷◌ c s) = code c ∷ codes s

-- `==` of two strings.
infix 50 ◌=?=◌
unfoldable pub ◌=?=◌ : Bytes → Bytes → Bool
[] =?= [] = true
[] =?= (y ∷ ys) = false
(x ∷ xs) =?= [] = false
(x ∷ xs) =?= (y ∷ ys) = (x == y) && (xs =?= ys)

pub =?=_sound : (xs ys : Bytes) → (xs =?= ys) ≡ true → xs ≡ ys
unfolding ◌=?=◌
=?=_sound [] [] h = refl
=?=_sound [] (y ∷ ys) h = cc
=?=_sound (x ∷ xs) [] h = cc
=?=_sound (x ∷ xs) (y ∷ ys) h = ground (arith, =?=_sound xs ys)

pub =?=_refl : (xs : Bytes) → (xs =?= xs) ≡ true
unfolding ◌=?=◌
=?=_refl [] = refl
=?=_refl (x ∷ xs) = ground (arith, =?=_refl xs)

pub =?=_iff : (xs ys : Bytes) → ((xs =?= ys) ≡ true) ↔ (xs ≡ ys)
=?=_iff xs ys = (=?=_sound xs ys, λ e. rw e (=?=_refl ys))
