-- ===== src/Heap/Laws.antt =====
-- What `pick` and `peek` answer: an element of the bag that no other is above.
use cedana_image_streamer.Prelude.{
  Bool, true, false, List, [], ◌∷◌, ◌++◌, ◌≡◌, refl, some, All, All-map, Bool-cases, inl, inr,
  arith, subst, sym,
}
use cedana_image_streamer.Heap.{pick, peek}

module _ {ℓ} {A : Type ℓ} (less : A → A → Bool) where
  pub pick-eq :
      (x : A) (xs : List A) → (pick less x xs).0 ++ (pick less x xs).1 ∷ (pick less x xs).2 ≡ x ∷ xs
  unfolding pick
  pick-eq x [] = refl
  pick-eq x (y ∷ ys) = ground (arith, pick-eq y ys)

  -- The parts of the answer make up the bag.
  pub peek-eq-some :
      (xs front back : List A) (m : A)
      → peek less xs ≡ some (front, m, back)
      → front ++ m ∷ back ≡ xs
  unfolding peek
  peek-eq-some [] front back m e = cc
  peek-eq-some (x ∷ xs) front back m e = ground (arith, pick-eq x xs)

  pick_new :
      (x y : A) (ys : List A) → less (pick less y ys).1 x ≡ true → (pick less x (y ∷ ys)).1 ≡ x
  unfolding pick
  pick_new x y ys h = ground arith

  pick_old :
      (x y : A) (ys : List A)
      → less (pick less y ys).1 x ≡ false
      → (pick less x (y ∷ ys)).1 ≡ (pick less y ys).1
  unfolding pick
  pick_old x y ys h = ground arith

  abbrev pub IsGreatest : List A → A → Type 0
  IsGreatest xs m = All (λ y. less m y ≡ false) xs

  -- No element is above the one that is picked, if `less` is a weak order.
  module _ (below : (a b c : A) → less b a ≡ false → less c b ≡ false → less c a ≡ false)
      (asym : (a b : A) → less a b ≡ true → less b a ≡ false)
      (irrefl : (a : A) → less a a ≡ false) where
    pick-IsGreatest : (x : A) (xs : List A) → IsGreatest (x ∷ xs) (pick less x xs).1
    pick-IsGreatest x [] = unfold pick in (irrefl x, tt)
    pick-IsGreatest x (y ∷ ys) = elim (Bool-cases (less (pick less y ys).1 x)) [
      | inl above ↦ subst (IsGreatest (x ∷ y ∷ ys)) (sym (pick_new x y ys above)) (
        irrefl x,
        All-map (λ z. less (pick less y ys).1 z ≡ false) (λ z. less x z ≡ false) (y ∷ ys)
            (λ z h. below z (pick less y ys).1 x h (asym (pick less y ys).1 x above))
            (pick-IsGreatest y ys),
      )
      | inr other ↦
          subst (IsGreatest (x ∷ y ∷ ys)) (sym (pick_old x y ys other))
            (other, pick-IsGreatest y ys)
    ]

    pub peek-IsGreatest :
        (xs front back : List A) (m : A) → peek less xs ≡ some (front, m, back) → IsGreatest xs m
    unfolding peek
    peek-IsGreatest [] front back m e = tt
    peek-IsGreatest (x ∷ xs) front back m e =
        let picked : (pick less x xs).1 ≡ m = ground arith in
        subst (IsGreatest (x ∷ xs)) picked (pick-IsGreatest x xs)
