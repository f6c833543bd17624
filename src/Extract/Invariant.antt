-- ===== src/Extract/Invariant.antt =====
-- The invariant of the reassembly. `todo` are the pieces of the image that are not processed yet; each
-- shard holds those of them that went to it, in order, wherever the shard waits.
use cedana_image_streamer.Prelude.{ℕ, ◌+◌, ◌≡◌, ◌≢◌, ◌≤◌, List, [], ◌∷◌, ◌++◌, map, All}
use cedana_image_streamer.Image.{Marker, Codec}
use cedana_image_streamer.System.{System}
use cedana_image_streamer.Stream.{Piece, serialize, route, IsNumbered, Fits, occurs}
use cedana_image_streamer.Extract.{Shard, PendingMarker, ImageDeserializer}
use cedana_image_streamer.Extract.Replay.{IsSized}

abbrev pub fds : List Shard → List ℕ
fds shards = map (λ s. s.pipe.fd) shards

abbrev pub pending_fds : List PendingMarker → List ℕ
pending_fds ms = map (λ m. m.shard.pipe.fd) ms

module _ (c : Codec Marker) (todo : List Piece) where
  -- A shard that is yet to be read.
  abbrev pub IsQueued : Shard → Type 0
  IsQueued s = s.pipe.content ≡ serialize c (route s.pipe.fd todo)

  -- A shard whose next marker was read, and its data was not.
  abbrev pub IsPending : PendingMarker → Type 0
  IsPending m =
      (p : Piece) × (ps : List Piece) × (route m.shard.pipe.fd todo ≡ p ∷ ps)
      × (m.marker ≡ p.marker)
      × (m.shard.pipe.content ≡ p.payload ++ serialize c ps)

  -- A shard that was read to its end.
  abbrev pub IsDone : Shard → Type 0
  IsDone s = route s.pipe.fd todo ≡ []

-- How many shards there are with a descriptor.
abbrev pub total : {Store File : Type 0} → ImageDeserializer Store File → ℕ → ℕ
total d j =
    occurs j (fds d.shards)
    + occurs j (fds d.readable_shards)
    + occurs j (pending_fds d.pending_markers)
    + occurs j (fds d.eof_shards)

pub record Inv {Store File : Type 0} (sys : System) (d : ImageDeserializer Store File)
    (todo : List Piece) : Type 0 where
  pub shards : All (IsQueued sys.codec todo) d.shards
  pub readable : All (IsQueued sys.codec todo) d.readable_shards
  pub pending : All (IsPending sys.codec todo) d.pending_markers
  pub done : All (IsDone sys.codec todo) d.eof_shards
  pub numbered : IsNumbered d.seq todo
  pub fits : All (Fits sys.codec) todo
  pub sized : All (λ p. IsSized p.marker.body p.payload) todo
  pub present : All (λ p. total d p.home ≡ 1) todo
  pub distinct : (j : ℕ) → total d j ≤ 1

-- No pending marker is the next one.
abbrev pub IsSettled : {Store File : Type 0} → ImageDeserializer Store File → Type 0
IsSettled d = All (λ m. m.marker.seq ≢ d.seq) d.pending_markers
