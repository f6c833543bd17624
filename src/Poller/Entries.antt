-- ===== src/Poller/Entries.antt =====
-- What src/poller.rs uses of the slab crate, which stands outside of src/: by its documentation a slab
-- is a map from keys to entries, and that is all that stands here. Which key it gives to a new entry is
-- not written out: it is a parameter of `Poller.add`.
use cedana_image_streamer.Prelude.{
  ℕ, ◌≡◌, refl, ◌==◌, if◌then◌else◌, Option, none, some, List, [], ◌∷◌, arith,
}
use cedana_image_streamer.Stream.{occurs}

abbrev pub Slab {ℓ} : Type ℓ → Type ℓ
Slab V = List (ℕ × V)

module _ {ℓ} {V : Type ℓ} where
  unfoldable pub find : ℕ → Slab V → Option V
  find key [] = none
  find key ((k, v) ∷ s) = if k == key then some v else find key s

  unfoldable pub without : ℕ → Slab V → Slab V
  without key [] = []
  without key ((k, v) ∷ s) = let rest = without key s in if k == key then rest else (k, v) ∷ rest

  abbrev pub keys : Slab V → List ℕ
  keys [] = []
  keys ((k, v) ∷ s) = k ∷ keys s

  pub find-without :
      (key j : ℕ) (s : Slab V) → find j (without key s) ≡ (if key == j then none else find j s)
  unfolding find without
  find-without key j [] = ground arith
  find-without key j ((k, v) ∷ s) = ground (arith, find-without key j s)

  pub find-none : (key : ℕ) (s : Slab V) → occurs key (keys s) ≡ 0 → find key s ≡ none
  unfolding find
  find-none key [] h = refl
  find-none key ((k, v) ∷ s) h = ground (arith, find-none key s)

-- The object under a key, replaced.
unfoldable pub put {ℓ} : {T : Type ℓ} → ℕ → T → Slab (ℕ × T) → Slab (ℕ × T)
put key obj [] = []
put key obj ((k, (fd, old)) ∷ s) =
    let rest = put key obj s in if k == key then (k, (fd, obj)) ∷ rest else (k, (fd, old)) ∷ rest
