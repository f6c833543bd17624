-- ===== src/Extract/Queues.antt =====
-- The queue of a shard: how it changes when the next piece of the image is processed.
use cedana_image_streamer.Prelude.{
  ℕ, suc, ◌≡◌, ◌≢◌, ◌≤◌, ◌==◌, sym, ap, ◌∙◌, List, [], ◌∷◌, All, arith, Bool-cases, inl, inr,
}
use cedana_image_streamer.Image.{Marker, Codec}
use cedana_image_streamer.Stream.{Piece, serialize, route, IsNumbered}
use cedana_image_streamer.Extract.{Shard, PendingMarker}
use cedana_image_streamer.Extract.Invariant.{fds, pending_fds, IsQueued, IsPending, IsDone}

pub route_skip :
    (fd : ℕ) (p : Piece) (ps : List Piece) → fd ≢ p.home → route fd (p ∷ ps) ≡ route fd ps
unfolding route
route_skip fd p ps h = ground arith

pub route_take :
    (fd : ℕ) (p : Piece) (ps : List Piece) → p.home ≡ fd → route fd (p ∷ ps) ≡ p ∷ route fd ps
unfolding route
route_take fd p ps h = ground arith

-- The pieces of a shard are not before the first one of the image.
pub route-seq :
    (k fd : ℕ) (todo : List Piece) (p : Piece) (ps : List Piece)
    → IsNumbered k todo
    → route fd todo ≡ p ∷ ps
    → k ≤ p.marker.seq
unfolding route
route-seq k fd [] p ps n e = cc
route-seq k fd (q ∷ qs) p ps n e = ground (arith, route-seq (suc k) fd qs p ps n.1)

-- If the first piece of a shard has the number of the first piece of the image, it is that piece.
pub route-first :
    (k fd : ℕ) (todo : List Piece) (p : Piece) (ps : List Piece)
    → IsNumbered k todo
    → route fd todo ≡ p ∷ ps
    → p.marker.seq ≡ k
    → (rest : List Piece) × (todo ≡ p ∷ rest) × (ps ≡ route fd rest) × (p.home ≡ fd)
route-first k fd [] p ps n e h = unfold route in cc
route-first k fd (q ∷ qs) p ps n e h = elim (Bool-cases (q.home == fd)) [
  | inl same ↦
      let at_home : q.home ≡ fd = ground arith in
      let e' : q ∷ route fd qs ≡ p ∷ ps = sym (route_take fd q qs at_home) ∙ e in
      let first : q ≡ p = cc in
      let others : route fd qs ≡ ps = cc in
      (
        qs,
        ap (λ (x : Piece). x ∷ qs) first,
        sym others,
        sym (ap (λ (x : Piece). x.home) first) ∙ at_home,
      )
  | inr other ↦
      let away : fd ≢ q.home = ground arith in
      let e' : route fd qs ≡ p ∷ ps = sym (route_skip fd q qs away) ∙ e in
      absurd (omega (arith, route-seq (suc k) fd qs p ps n.1 e'))
]

module _ (c : Codec Marker) (p : Piece) (rest : List Piece) where
  -- Shards with another descriptor keep their queues when `p` is processed.
  pub IsQueued-skip :
      (ss : List Shard)
      → All (λ fd. fd ≢ p.home) (fds ss)
      → All (IsQueued c (p ∷ rest)) ss
      → All (IsQueued c rest) ss
  IsQueued-skip [] h k = tt
  IsQueued-skip (s ∷ ss) h k =
      (k.0 ∙ ap (serialize c) (route_skip s.pipe.fd p rest h.0), IsQueued-skip ss h.1 k.1)

  pub IsDone-skip :
      (ss : List Shard)
      → All (λ fd. fd ≢ p.home) (fds ss)
      → All (IsDone c (p ∷ rest)) ss
      → All (IsDone c rest) ss
  IsDone-skip [] h k = tt
  IsDone-skip (s ∷ ss) h k = (sym (route_skip s.pipe.fd p rest h.0) ∙ k.0, IsDone-skip ss h.1 k.1)

  pub IsPending-skip :
      (ms : List PendingMarker)
      → All (λ fd. fd ≢ p.home) (pending_fds ms)
      → All (IsPending c (p ∷ rest)) ms
      → All (IsPending c rest) ms
  IsPending-skip [] h k = tt
  IsPending-skip (m ∷ ms) h ((q, qs, e, a, b), k) =
      ((q, qs, sym (route_skip m.shard.pipe.fd p rest h.0) ∙ e, a, b), IsPending-skip ms h.1 k)
