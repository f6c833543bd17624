-- ===== src/Util.antt =====
-- src/util.rs: length-prefixed protobuf messages on a byte stream.
--
-- A stream that is read is the list of all bytes up to its end; reading answers what is left. A
-- stream that is written is any type with its `write_all`.
pub mod Files
pub mod Filter
pub mod Glob
pub mod RoundTrip
use cedana_image_streamer.Prelude.{
  ℕ, ◌+◌, ◌*◌, ◌/◌, ◌%◌, ◌==◌, ltb, if◌then◌else◌, Bytes, Option, none, some, [], ◌∷◌, length, take,
  drop, Result, ok, err, ◌>>=◌, ◌>>◌, assert, eof_unexpected, decode_failed, oversized_protobuf,
  ◌++◌,
}
use cedana_image_streamer.Image.{Codec}

abbrev pub kb : ℕ
kb = 1024

abbrev pub mb : ℕ
mb = 1024 * 1024

-- `src.take(len).read_to_end(..)`: up to `len` bytes, fewer only at the end of the stream.
unfoldable pub read_bytes_next : Bytes → ℕ → Result (Option Bytes × Bytes)
read_bytes_next src len =
    let buf = take len src in
    let rest = drop len src in
    if length buf == 0
    then (if len == 0 then ok (some buf, rest) else ok (none, rest))
    else if length buf == len
    then ok (some buf, rest)
    else err eof_unexpected

-- `BufMut::put_u32_le`
unfoldable pub put_u32_le : ℕ → Bytes
put_u32_le n = n % 256 ∷ n / 256 % 256 ∷ n / 65536 % 256 ∷ n / 16777216 % 256 ∷ []

-- `Buf::get_u32_le`: the number, and the buffer behind it.
unfoldable pub get_u32_le : Bytes → ℕ × Bytes
get_u32_le (a ∷ b ∷ c ∷ d ∷ rest) = (a + b * 256 + c * 65536 + d * 16777216, rest)
get_u32_le short = (0, [])

module _ {ℓ} {T : Type ℓ} (c : Codec T) where
  -- `T::decode(buf)?`
  unfoldable pub decode : Bytes → Result T
  decode buf = elim (c.decode buf) [ none ↦ err decode_failed | some obj ↦ ok obj ]

  -- `.ok_or_else(|| anyhow!(EOF_ERR_MSG))?`
  unfoldable pub or_eof : Option Bytes → Result Bytes
  or_eof none = err eof_unexpected
  or_eof (some buf) = ok buf

  -- The message behind its length.
  unfoldable pub pb_read_body : Option Bytes → Bytes → Result (Option (T × ℕ) × Bytes)
  unfolding decode or_eof get_u32_le
  pb_read_body none src = ok (none, src)
  pb_read_body (some size_buf) src = do
    let (size, size_rest) = get_u32_le size_buf
    assert (ltb size (10 * kb)) oversized_protobuf
    (found, rest) ← read_bytes_next src size
    buf ← or_eof found
    obj ← decode buf
    ok (some (obj, 4 + length size_rest + length buf), rest)

  -- The next message with the number of its bytes; `none` at the end of the stream.
  unfoldable pub pb_read_next : Bytes → Result (Option (T × ℕ) × Bytes)
  unfolding pb_read_body
  pb_read_next src = do (size_buf, rest) ← read_bytes_next src 4; pb_read_body size_buf rest

  unfoldable pub or_eof_message : Option (T × ℕ) → Bytes → Result (T × Bytes)
  or_eof_message none rest = err eof_unexpected
  or_eof_message (some (obj, size)) rest = ok (obj, rest)

  unfoldable pub pb_read : Bytes → Result (T × Bytes)
  unfolding or_eof_message
  pb_read src = do (found, rest) ← pb_read_next src; or_eof_message found rest

  -- The buffer that `pb_write` hands to `write_all`.
  unfoldable pub frame : T → Bytes
  unfolding put_u32_le
  frame msg = put_u32_le (length (c.encode msg)) ++ c.encode msg

  -- The destination after the write, and the number of bytes written.
  unfoldable pub pb_write {κ} : {W : Type κ} → (W → Bytes → Result W) → W → T → Result (W × ℕ)
  unfolding frame
  pb_write write_all dst msg = do
    assert (ltb (length (c.encode msg)) (10 * kb)) oversized_protobuf
    dst' ← write_all dst (frame msg)
    ok (dst', length (frame msg))
