-- ===== src/Image.antt =====
-- proto/image.proto: the markers of a shard's stream. The bytes of a marker are the work of the
-- protobuf library, which is a parameter (`Codec`).
use cedana_image_streamer.Prelude.{ℕ, Bool, Bytes, Option, some, ◌≡◌}

-- The `oneof body` of a marker.
pub data Body : Type 0 where
  filename : Bytes → Body
  file_data : ℕ → Body
  file_eof : Bool → Body
  image_eof : Bool → Body

pub record Marker : Type 0 where
  pub seq : ℕ
  pub body : Option Body

-- `prost::Message`: a library that turns messages into bytes and back.
pub record Codec {ℓ} (T : Type ℓ) : Type ℓ where
  pub encode : T → Bytes
  pub decode : Bytes → Option T

-- The documented behaviour of the library: decoding what was encoded gives the message back.
abbrev pub Decodes {ℓ} : {T : Type ℓ} → Codec T → Type ℓ
Decodes {T = T} c = (m : T) → c.decode (c.encode m) ≡ some m
