-- ===== src/Stream.antt =====
-- The streams of the shards, as the capture writes them and the extraction reads them: each piece is
-- a marker behind its length, followed by its data (proto/image.proto).
pub mod Laws
use cedana_image_streamer.Prelude.{
  ℕ, suc, ◌+◌, ◌*◌, ◌<◌, ◌≡◌, ◌==◌, if◌then◌else◌, Bytes, Option, List, [], ◌∷◌, ◌++◌, length,
  select,
}
use cedana_image_streamer.Image.{Body, Marker, Codec}
use cedana_image_streamer.Util.{kb, frame}

-- A chunk on the wire, with the descriptor of the shard that it was written to.
pub record Piece : Type 0 where
  pub home : ℕ
  pub marker : Marker
  pub payload : Bytes

-- What a piece says to the reader.
abbrev pub Event : Type 0
Event = Option Body × Bytes

abbrev pub event : Piece → Event
event p = (p.marker.body, p.payload)

abbrev pub serialize : Codec Marker → List Piece → Bytes
serialize c [] = []
serialize c (p ∷ ps) = frame c p.marker ++ p.payload ++ serialize c ps

-- The pieces of one shard.
unfoldable pub route : ℕ → List Piece → List Piece
route fd ps = select (λ p. p.home == fd) ps

-- The sequence numbers count up from `n`.
abbrev pub IsNumbered : ℕ → List Piece → Type 0
IsNumbered n [] = Unit
IsNumbered n (p ∷ ps) = (p.marker.seq ≡ n) × IsNumbered (suc n) ps

-- The marker is not too large to be read back.
abbrev pub Fits : Codec Marker → Piece → Type 0
Fits c p = length (c.encode p.marker) < 10 * kb

-- How often a descriptor stands in a list.
abbrev pub occurs : ℕ → List ℕ → ℕ
occurs j [] = 0
occurs j (x ∷ xs) = (if x == j then 1 else 0) + occurs j xs
