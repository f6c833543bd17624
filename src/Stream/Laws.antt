-- ===== src/Stream/Laws.antt =====
-- Streams that grow at the end.
use cedana_image_streamer.Prelude.{
  ℕ, suc, ◌+◌, ◌≡◌, ◌≢◌, ◌==◌, refl, List, [], ◌∷◌, ◌++◌, length, select-append, All, append_assoc,
  append-nil, arith, ==_refl, false,
}
use cedana_image_streamer.Image.{Marker, Codec}
use cedana_image_streamer.Stream.{Piece, serialize, route, IsNumbered, occurs}

pub serialize-append :
    (c : Codec Marker) (ps qs : List Piece)
    → serialize c (ps ++ qs) ≡ serialize c ps ++ serialize c qs
serialize-append c [] qs = refl
serialize-append c (p ∷ ps) qs = simp (serialize-append c ps qs, append_assoc)

pub route-append : (fd : ℕ) (ps qs : List Piece) → route fd (ps ++ qs) ≡ route fd ps ++ route fd qs
unfolding route
route-append fd ps qs = select-append (λ p. p.home == fd) ps qs

-- A piece goes to its own shard, and to no other.
pub route-concat_home :
    (ps : List Piece) (p : Piece) → route p.home (ps ++ p ∷ []) ≡ route p.home ps ++ p ∷ []
route-concat_home ps p = rw (route-append p.home ps (p ∷ [])) (unfold route in rw (==_refl p.home))

pub route-concat_other :
    (fd : ℕ) (ps : List Piece) (p : Piece) → p.home ≢ fd → route fd (ps ++ p ∷ []) ≡ route fd ps
route-concat_other fd ps p h =
    let e : (p.home == fd) ≡ false = ground arith in
    rw (route-append fd ps (p ∷ [])) (unfold route in rw (e, append-nil))

pub IsNumbered-append :
    (n : ℕ) (ps qs : List Piece)
    → IsNumbered n ps
    → IsNumbered (n + length ps) qs
    → IsNumbered n (ps ++ qs)
IsNumbered-append n [] qs h k = let e : n + 0 ≡ n = omega arith in rw e at k
IsNumbered-append n (p ∷ ps) qs h k =
    let e : n + suc (length ps) ≡ suc n + length ps = omega arith in
    (h.0, IsNumbered-append (suc n) ps qs h.1 (rw e at k))

pub occurs-append : (j : ℕ) (xs ys : List ℕ) → occurs j (xs ++ ys) ≡ occurs j xs + occurs j ys
occurs-append j [] ys = omega arith
occurs-append j (x ∷ xs) ys = omega (arith, occurs-append j xs ys)

pub All-ne_of_occurs : (j : ℕ) (xs : List ℕ) → occurs j xs ≡ 0 → All (λ x. x ≢ j) xs
All-ne_of_occurs j [] h = tt
All-ne_of_occurs j (x ∷ xs) h = (ground arith, All-ne_of_occurs j xs (ground arith))
