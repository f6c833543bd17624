-- ===== src/Prelude/Back.antt =====
-- `Vec` and `VecDeque` as their ends are used: the last element, and what is before it.
use mathlib.Core.Path.{◌≡◌, refl}
use mathlib.Core.List.{List, [], ◌∷◌, ◌++◌}
use mathlib.Core.Option.{Option, none, some}
use mathlib.Core.Logic.{inl, inr}
use native.Mathlib.Omega.{arith}
use cedana_image_streamer.Prelude.Tests.{Option-cases}

-- `Vec::pop`
unfoldable pub pop {ℓ} : {A : Type ℓ} → List A → Option (List A × A)
pop [] = none
pop (x ∷ xs) = elim (pop xs) [ none ↦ some ([], x) | some (front, last) ↦ some (x ∷ front, last) ]

pub pop-eq-none {ℓ} : {A : Type ℓ} (xs : List A) → pop xs ≡ none → xs ≡ []
unfolding pop
pop-eq-none [] e = refl
pop-eq-none (x ∷ xs) e = ground arith

pub pop-eq-some {ℓ} :
    {A : Type ℓ} (xs front : List A) (last : A)
    → pop xs ≡ some (front, last)
    → xs ≡ front ++ last ∷ []
unfolding pop
pop-eq-some [] front last e = cc
pop-eq-some (x ∷ xs) front last e = elim (Option-cases (pop xs)) [
  | inl n ↦ ground (arith, pop-eq-none xs n)
  | inr ((f, l), q) ↦ ground (arith, pop-eq-some xs f l q)
]

pub pop-append_last {ℓ} : {A : Type ℓ} (xs : List A) (x : A) → pop (xs ++ x ∷ []) ≡ some (xs, x)
unfolding pop
pop-append_last [] x = refl
pop-append_last (y ∷ xs) x = rw (pop-append_last xs x)
