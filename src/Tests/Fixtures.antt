-- ===== src/Tests/Fixtures.antt =====
-- A concrete system for tests and instances: a plain encoding of the markers, a kernel that moves
-- all it can, and an image store that keeps whole files in a list.
use cedana_image_streamer.Prelude.{
  ℕ, zero, suc, ◌≡◌, refl, Bool, true, false, ltb, Bytes, Option, none, some, List, [], ◌∷◌, ◌++◌,
  length, take, drop, take-append_self, drop-append_self, take_all, ok, arith,
}
use cedana_image_streamer.Prelude.Map
use cedana_image_streamer.Prelude.Map.{Map}
use cedana_image_streamer.Image.{
  Body, filename, file_data, file_eof, image_eof, Marker, Codec, Decodes,
}
use cedana_image_streamer.UnixPipe.{takes, Kernel, Reader, WritePipe, Progresses}
use cedana_image_streamer.System.{System, Laws}
use cedana_image_streamer.ImageStore.{ImageStore}
use cedana_image_streamer.Extract.Replay.{TakesExactly}

abbrev encode_body : Option Body → Bytes
encode_body none = 0 ∷ []
encode_body (some (filename name)) = 1 ∷ name
encode_body (some (file_data size)) = 2 ∷ size ∷ []
encode_body (some (file_eof false)) = 3 ∷ 0 ∷ []
encode_body (some (file_eof true)) = 3 ∷ 1 ∷ []
encode_body (some (image_eof false)) = 4 ∷ 0 ∷ []
encode_body (some (image_eof true)) = 4 ∷ 1 ∷ []

abbrev encode : Marker → Bytes
encode m = m.seq ∷ encode_body m.body

abbrev flag : ℕ → Bool
flag zero = false
flag (suc n) = true

abbrev decode_body : ℕ → Bytes → Option (Option Body)
decode_body zero rest = some none
decode_body (suc zero) rest = some (some (filename rest))
decode_body (suc (suc zero)) (size ∷ rest) = some (some (file_data size))
decode_body (suc (suc (suc zero))) (b ∷ rest) = some (some (file_eof (flag b)))
decode_body (suc (suc (suc (suc zero)))) (b ∷ rest) = some (some (image_eof (flag b)))
decode_body tag rest = none

abbrev with_seq : ℕ → Option (Option Body) → Option Marker
with_seq seq none = none
with_seq seq (some body) = some (record { seq = seq; body = body })

abbrev decode_marker : Bytes → Option Marker
decode_marker (seq ∷ tag ∷ rest) = with_seq seq (decode_body tag rest)
decode_marker bytes = none

abbrev pub codec : Codec Marker
codec = record { encode = encode; decode = decode_marker }

decode_body_lem :
    (seq : ℕ) (body : Option Body)
    → decode_marker (seq ∷ encode_body body) ≡ some (record { seq = seq; body = body })
decode_body_lem seq none = refl
decode_body_lem seq (some (filename name)) = refl
decode_body_lem seq (some (file_data size)) = refl
decode_body_lem seq (some (file_eof false)) = refl
decode_body_lem seq (some (file_eof true)) = refl
decode_body_lem seq (some (image_eof false)) = refl
decode_body_lem seq (some (image_eof true)) = refl

pub codec-Decodes : Decodes codec
codec-Decodes m = decode_body_lem m.seq m.body

abbrev pub kernel : Kernel
kernel = record { splice = λ want have. want }

pub kernel-Progresses : Progresses kernel
kernel-Progresses want have h k = h

-- Names are joined by a byte that stands for the JSON syntax.
abbrev to_json : List Bytes → Option Bytes
to_json [] = some []
to_json (name ∷ names) = elim (to_json names) [ none ↦ none | some rest ↦ some (44 ∷ name ++ rest) ]

abbrev pub sys : System
sys = record {
  page_size = 4;
  kernel = kernel;
  codec = codec;
  to_json = to_json;
  from_json = λ bytes. some (bytes ∷ []);
  is_match = λ pattern text. ltb 6 (length text);
}

pub sys-Laws : Laws sys
sys-Laws = record {
  page_pos = omega arith;
  decodes = codec-Decodes;
  progresses = kernel-Progresses;
}

-- A pipe whose reader stays, and has read all.
abbrev pub reader : Reader
reader = record { answer = λ n. takes; takes_fewer = λ m n h e. refl; backlog = λ now. some 0 }

abbrev pub write_pipe : ℕ → WritePipe
write_pipe fd = record { fd = fd; written = []; reader = reader }

abbrev pub store_ops : ImageStore (Map Bytes) Bytes
store_ops = record {
  create = λ store name. ok (store, []);
  insert = λ store name file. ok (Map.insert name file store);
  write_all_from_pipe = λ store file pipe size. ok (store, file ++ take size pipe, drop size pipe);
}

pub store_ops-TakesExactly : TakesExactly store_ops
store_ops-TakesExactly store file payload rest store' file' left e = ground (
  arith,
  take-append_self payload rest,
  drop-append_self payload rest,
  take_all (length payload) payload,
)
