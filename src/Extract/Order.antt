-- ===== src/Extract/Order.antt =====
-- The next marker in order: `get_next_in_order_marker` finds it exactly when it is pending.
use cedana_image_streamer.Prelude.{
  ℕ, ◌≡◌, ◌≢◌, ◌≤◌, ◌⊎◌, ◌==◌, sym, true, false, none, some, List, [], ◌∷◌, ◌++◌, All, arith,
  Bool-cases, Option-cases, inl, inr,
}
use cedana_image_streamer.Heap.{peek}
use cedana_image_streamer.Heap.Laws.{peek-eq-some, peek-IsGreatest}
use cedana_image_streamer.Image.{Marker, Codec}
use cedana_image_streamer.Stream.{Piece, IsNumbered}
use cedana_image_streamer.Extract.{
  PendingMarker, ImageDeserializer, pending_less, get_next_in_order_marker,
}
use cedana_image_streamer.Extract.Invariant.{IsPending, IsSettled}
use cedana_image_streamer.Extract.Queues.{route-seq}

-- No pending marker is before the first piece that is not processed.
pub pending_late :
    (c : Codec Marker) (k : ℕ) (todo : List Piece) (ms : List PendingMarker)
    → IsNumbered k todo
    → All (IsPending c todo) ms
    → All (λ m. k ≤ m.marker.seq) ms
pending_late c k todo [] n h = tt
pending_late c k todo (m ∷ ms) n ((p, ps, e, a, b), h) =
    (rw a (route-seq k m.shard.pipe.fd todo p ps n e), pending_late c k todo ms n h)

less_below :
    (a b c : PendingMarker)
    → pending_less b a ≡ false
    → pending_less c b ≡ false
    → pending_less c a ≡ false
unfolding pending_less
less_below a b c h k = ground arith

less_asym : (a b : PendingMarker) → pending_less a b ≡ true → pending_less b a ≡ false
unfolding pending_less
less_asym a b h = ground arith

less_irrefl : (a : PendingMarker) → pending_less a a ≡ false
unfolding pending_less
less_irrefl a = ground arith

-- If the lowest marker is not number `k`, and none is before `k`, none is number `k`.
not_due :
    (k : ℕ) (m : PendingMarker) (ms : List PendingMarker)
    → k ≤ m.marker.seq
    → m.marker.seq ≢ k
    → All (λ x. pending_less m x ≡ false) ms
    → All (λ x. x.marker.seq ≢ k) ms
unfolding pending_less
not_due k m [] l h g = tt
not_due k m (x ∷ ms) l h g = (ground arith, not_due k m ms l h g.1)

none_pending :
    (k : ℕ) (ms : List PendingMarker) → peek pending_less ms ≡ none → All (λ m. m.marker.seq ≢ k) ms
unfolding peek
none_pending k [] e = tt
none_pending k (m ∷ ms) e = cc

pub in_middle :
    {A : Type 0} (P : A → Type 0) (front back : List A) (m : A) → All P (front ++ m ∷ back) → P m
in_middle P [] back m h = h.0
in_middle P (x ∷ front) back m h = in_middle P front back m h.1

module _ {Store File : Type 0} (d : ImageDeserializer Store File) where
  abbrev pub IsNone : Type 0
  IsNone = (get_next_in_order_marker d ≡ (none, d)) × IsSettled d

  abbrev pub IsSome : Type 0
  IsSome =
      (front : List PendingMarker) × (m : PendingMarker) × (back : List PendingMarker)
      × (get_next_in_order_marker d ≡ (some m, record d { pending_markers = front ++ back }))
      × (d.pending_markers ≡ front ++ m ∷ back)
      × (m.marker.seq ≡ d.seq)

  pub get_next_cases : All (λ m. d.seq ≤ m.marker.seq) d.pending_markers → IsNone ⊎ IsSome
  unfolding get_next_in_order_marker
  get_next_cases late = elim (Option-cases (peek pending_less d.pending_markers)) [
    | inl e ↦ inl (ground arith, none_pending d.seq d.pending_markers e)
    | inr ((front, m, back), e) ↦
        let parts = peek-eq-some pending_less d.pending_markers front back m e in
        let greatest =
          peek-IsGreatest pending_less less_below less_asym less_irrefl d.pending_markers front back
            m e in
        elim (Bool-cases (m.marker.seq == d.seq)) [
          | inl due ↦ inr (front, m, back, ground arith, sym parts, ground arith)
          | inr other ↦ inl (
            ground arith,
            not_due d.seq m d.pending_markers
                (in_middle (λ x. d.seq ≤ x.marker.seq) front back m (rw (sym parts) at late))
                (ground arith) greatest,
          )
        ]
  ]
