-- ===== src/Util/RoundTrip.antt =====
-- Reading back what was written: frames of messages on a byte stream.
use cedana_image_streamer.Prelude.{
  ℕ, ◌+◌, ◌*◌, ◌<◌, ◌^◌, ◌≡◌, ◌++◌, refl, Bytes, none, some, [], length, drop, Result, ok, arith,
  take-append_self, drop-append_self, ltb, append_assoc, assert, >>=-eq-ok, append-nil,
  oversized_protobuf,
}
use cedana_image_streamer.Image.{Codec, Decodes}
use cedana_image_streamer.Util.{
  kb, read_bytes_next, put_u32_le, get_u32_le, decode, pb_read_body, pb_read_next, frame, pb_write,
}

-- Reading exactly what stands in front of the stream.
pub read_bytes_next-append :
    (buf rest : Bytes) → read_bytes_next (buf ++ rest) (length buf) ≡ ok (some buf, rest)
unfolding read_bytes_next
read_bytes_next-append buf rest =
    rw (take-append_self buf rest, drop-append_self buf rest) (ground arith)

pub get_u32_le-put_u32_le :
    (n : ℕ) (rest : Bytes) → n < 2 ^ 32 → get_u32_le (put_u32_le n ++ rest) ≡ (n, rest)
unfolding get_u32_le put_u32_le
get_u32_le-put_u32_le n rest h = ground arith

module _ {ℓ} {T : Type ℓ} (c : Codec T) where
  pub decode-encode : (m : T) → Decodes c → decode c (c.encode m) ≡ ok m
  unfolding decode
  decode-encode m law = rw (law m, decode)

  pub length-frame : (m : T) → length (frame c m) ≡ 4 + length (c.encode m)
  unfolding frame put_u32_le
  length-frame m = omega arith

  read_length :
      (m : T) (rest : Bytes)
      → read_bytes_next (frame c m ++ rest) 4
        ≡ ok (some (put_u32_le (length (c.encode m))), c.encode m ++ rest)
  unfolding frame put_u32_le
  read_length m rest =
      rw (append_assoc (put_u32_le (length (c.encode m))) (c.encode m) rest)
        (read_bytes_next-append (put_u32_le (length (c.encode m))) (c.encode m ++ rest))

  read_message :
      (m : T) (rest : Bytes)
      → Decodes c
      → length (c.encode m) < 10 * kb
      → pb_read_body c (some (put_u32_le (length (c.encode m)))) (c.encode m ++ rest)
        ≡ ok (some (m, 4 + length (c.encode m)), rest)
  unfolding pb_read_body
  read_message m rest law h = ground (
    arith,
    get_u32_le-put_u32_le (length (c.encode m)) [] (omega arith),
    append-nil (put_u32_le (length (c.encode m))),
    read_bytes_next-append (c.encode m) rest,
    decode-encode m law,
  )

  -- A frame in front of a stream is read as its message, with the bytes behind it left.
  pub pb_read_next-frame :
      (m : T) (rest : Bytes)
      → Decodes c
      → length (c.encode m) < 10 * kb
      → pb_read_next c (frame c m ++ rest) ≡ ok (some (m, length (frame c m)), rest)
  unfolding pb_read_next
  pb_read_next-frame m rest law h =
      ground (arith, read_length m rest, read_message m rest law h, length-frame m)

  -- At the end of the stream there is no message.
  pub pb_read_next-nil : pb_read_next c [] ≡ ok (none, [])
  unfolding pb_read_next read_bytes_next
  pb_read_next-nil = refl

  -- A message that was written is below the limit, and its frame went to the destination.
  pub pb_write-eq-ok {κ} :
      {W : Type κ} (write_all : W → Bytes → Result W) (dst : W) (m : T) (dst' : W) (size : ℕ)
      → pb_write c write_all dst m ≡ ok (dst', size)
      → (length (c.encode m) < 10 * kb)
        × (write_all dst (frame c m) ≡ ok dst')
        × (size ≡ length (frame c m))
  unfolding pb_write
  pb_write-eq-ok write_all dst m dst' size e =
      let (u, fits, e1) =
        >>=-eq-ok (assert (ltb (length (c.encode m)) (10 * kb)) oversized_protobuf) _ e in
      let (d, e2, e3) = >>=-eq-ok (write_all dst (frame c m)) _ e1 in
      (ground arith, ground arith, ground arith)

  -- What `pb_write` appends to a buffer, `pb_read_next` reads back, with whatever follows it.
  pub pb_read_next-pb_write :
      (dst : Bytes) (m : T) (rest written : Bytes) (size : ℕ)
      → Decodes c
      → pb_write c (λ buf bytes. ok (buf ++ bytes)) dst m ≡ ok (written, size)
      → pb_read_next c (drop (length dst) written ++ rest) ≡ ok (some (m, size), rest)
  pb_read_next-pb_write dst m rest written size law e =
      let (fits, w, n) = pb_write-eq-ok (λ buf bytes. ok (buf ++ bytes)) dst m written size e in
      let w' : written ≡ dst ++ frame c m = ground arith in
      rw (w', n, drop-append_self dst (frame c m)) (pb_read_next-frame m rest law fits)
