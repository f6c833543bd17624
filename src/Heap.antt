-- ===== src/Heap.antt =====
-- `std::collections::BinaryHeap` as the program uses it: a bag of elements from which the greatest is
-- looked at (`peek`), changed in place (`peek_mut`) or taken out (`pop`). The order that the heap
-- keeps inside is not modelled: no code depends on it.
pub mod Laws
use cedana_image_streamer.Prelude.{Bool, Option, none, some, List, [], ◌∷◌, if◌then◌else◌}

-- The greatest element of `x ∷ xs`, between the elements before and behind it.
unfoldable pub pick {ℓ} : {A : Type ℓ} → (A → A → Bool) → A → List A → List A × A × List A
pick less x [] = ([], x, [])
pick less x (y ∷ ys) =
    let (front, m, back) = pick less y ys in
    if less m x then ([], x, y ∷ ys) else (x ∷ front, m, back)

unfoldable pub peek {ℓ} : {A : Type ℓ} → (A → A → Bool) → List A → Option (List A × A × List A)
unfolding pick
peek less [] = none
peek less (x ∷ xs) = some (pick less x xs)
