-- ===== src/System.antt =====
-- What the program takes from outside the repository: the kernel, the protobuf and JSON libraries,
-- the regular expressions. `Laws` holds the documented behaviour that the theorems rely on.
use cedana_image_streamer.Prelude.{ℕ, ◌<◌, Bool, Bytes, Option, List}
use cedana_image_streamer.Image.{Marker, Codec, Decodes}
use cedana_image_streamer.UnixPipe.{Kernel, Progresses}

pub record System : Type 0 where
  -- sysconf(_SC_PAGE_SIZE)
  pub page_size : ℕ
  -- splice() and vmsplice()
  pub kernel : Kernel
  -- prost, on image.Marker
  pub codec : Codec Marker
  -- serde_json::to_vec and serde_json::from_slice, on Vec<String>
  pub to_json : List Bytes → Option Bytes
  pub from_json : Bytes → Option (List Bytes)
  -- Regex::new(pattern).unwrap().is_match(text)
  pub is_match : Bytes → Bytes → Bool

pub record Laws (sys : System) : Type 0 where
  pub page_pos : 0 < sys.page_size
  pub decodes : Decodes sys.codec
  pub progresses : Progresses sys.kernel
