-- ===== src/Tests/Messages.antt =====
-- A plain encoding of the messages between the program and its clients.
use cedana_image_streamer.Prelude.{
  ℕ, zero, suc, ◌≡◌, refl, Bool, true, false, Bytes, Option, none, some, [], ◌∷◌,
}
use cedana_image_streamer.Image.{Decodes}
use cedana_image_streamer.Connection.{
  ReplyEntry, FileStatus, does_not_exist, not_ready, ready, Messages,
}

abbrev encode_status : Option FileStatus → Bytes
encode_status none = []
encode_status (some does_not_exist) = 0 ∷ []
encode_status (some not_ready) = 1 ∷ []
encode_status (some ready) = 2 ∷ []

abbrev encode_reply : ReplyEntry → Bytes
encode_reply r = (elim r.exists [ true ↦ 1 | false ↦ 0 ]) ∷ encode_status r.status

abbrev decode_exists : ℕ → Bool
decode_exists zero = false
decode_exists (suc n) = true

abbrev decode_status : Bytes → Option FileStatus
decode_status [] = none
decode_status (zero ∷ rest) = some does_not_exist
decode_status (suc zero ∷ rest) = some not_ready
decode_status (suc (suc n) ∷ rest) = some ready

abbrev decode_reply : Bytes → Option ReplyEntry
decode_reply [] = none
decode_reply (e ∷ rest) = some (record { exists = decode_exists e; status = decode_status rest })

abbrev pub messages : Messages
messages = record {
  request = record {
    encode = λ r. r.filename;
    decode = λ bytes. some (record { filename = bytes });
  };
  reply = record { encode = encode_reply; decode = decode_reply };
  list_reply = record {
    encode = λ r. elim r.filenames [ [] ↦ [] | name ∷ names ↦ name ];
    decode = λ bytes. none;
  };
}

decode-encode_reply :
    (exists : Bool) (status : Option FileStatus)
    → decode_reply (encode_reply (record { exists = exists; status = status }))
      ≡ some (record { exists = exists; status = status })
decode-encode_reply true none = refl
decode-encode_reply true (some does_not_exist) = refl
decode-encode_reply true (some not_ready) = refl
decode-encode_reply true (some ready) = refl
decode-encode_reply false none = refl
decode-encode_reply false (some does_not_exist) = refl
decode-encode_reply false (some not_ready) = refl
decode-encode_reply false (some ready) = refl

pub reply-Decodes : Decodes messages.reply
reply-Decodes r = decode-encode_reply r.exists r.status
