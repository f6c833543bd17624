-- ===== src/Extract/Deliver.antt =====
-- One marker with its data behind it: `process_marker` does what `deliver` says, and leaves the rest of
-- the shard's stream.
use cedana_image_streamer.Prelude.{
  ◌+◌, Bool, true, false, Bytes, Option, none, some, [], ◌++◌, ◌≡◌, refl, length, ok, >>=-eq-ok,
  arith, ensure, unexpected_image_eof,
}
use cedana_image_streamer.Image.{Body, filename, file_data, file_eof, image_eof}
use cedana_image_streamer.System.{System}
use cedana_image_streamer.ImageStore.{ImageStore}
use cedana_image_streamer.Extract.{Shard, ImageDeserializer, is_nil, mark_image_eof, process_body}
use cedana_image_streamer.Extract.Sink.{Output, write_current}
use cedana_image_streamer.Extract.Replay.{IsSized, deliver_body, TakesExactly}

module _ {Store File : Type 0} (sys : System) (ops : ImageStore Store File)
    (law : TakesExactly ops) where
  write_current-append :
      (o : Output Store File) (payload rest : Bytes) (current : Option (Bytes × File))
      (o' : Output Store File) (left : Bytes)
      → write_current ops o payload (length payload) current ≡ ok (o', left)
      → write_current ops o (payload ++ rest) (length payload) current ≡ ok (o', rest)
  unfolding write_current
  write_current-append o payload rest none o' left e = cc
  write_current-append o payload rest (some (name, file)) o' left e =
      let ((store, file', l), e1, e2) =
        >>=-eq-ok (ops.write_all_from_pipe o.img_store file payload (length payload)) _ e in
      let q = law o.img_store file payload rest store file' l e1 in ground (arith, q, e1)

  -- What a marker leaves of the deserializer and of its shard.
  abbrev pub Processed :
      ImageDeserializer Store File → Option Body → Shard → Bytes → Output Store File → Bool → Type 0
  Processed d body shard rest o' eof =
      (s' : Shard) × (process_body sys ops d body shard
        ≡ ok (record d { output = o'; image_eof_seen = eof }, s'))
      × (s'.pipe ≡ record { fd = shard.pipe.fd; content = rest })

  pub process_body-deliver :
      (d : ImageDeserializer Store File) (body : Option Body) (shard : Shard) (payload rest : Bytes)
      (o' : Output Store File) (eof : Bool)
      → IsSized body payload
      → shard.pipe.content ≡ payload ++ rest
      → d.image_eof_seen ≡ false
      → (eof ≡ true → d.pending_markers ≡ [])
      → deliver_body ops d.output body payload ≡ ok (o', eof)
      → Processed d body shard rest o' eof
  unfolding process_body deliver_body mark_image_eof
  process_body-deliver d (some (filename name)) shard payload rest o' eof sized content seen
        none_left e =
      (shard, ground arith, ground arith)
  process_body-deliver d (some (file_data size)) shard payload rest o' eof sized content seen
        none_left e =
      let current = d.output.current_img_file in
      let ((o1, left), e1, e2) = >>=-eq-ok (write_current ops d.output payload size current) _ e in
      let e1' : write_current ops d.output payload (length payload) current ≡ ok (o1, left) =
        rw (← sized) e1 in
      let q = write_current-append d.output payload rest current o1 left e1' in
      (
        record shard {
          pipe = record { fd = shard.pipe.fd; content = rest };
          bytes_read = shard.bytes_read + size;
        },
        ground (arith, q, e2),
        refl,
      )
  process_body-deliver d (some (file_eof true)) shard payload rest o' eof sized content seen
        none_left e =
      (shard, ground arith, ground arith)
  process_body-deliver d (some (image_eof true)) shard payload rest o' eof sized content seen
        none_left e =
      let (u, closed, e1) =
        >>=-eq-ok (ensure (is_nil d.output.img_files) unexpected_image_eof) _ e in
      let at_end : eof ≡ true = ground arith in
      let empty : d.pending_markers ≡ [] = none_left at_end in
      (shard, ground (arith, closed, e1, empty), ground arith)
  process_body-deliver d (some (file_eof false)) shard payload rest o' eof sized content seen
        none_left e =
      cc
  process_body-deliver d (some (image_eof false)) shard payload rest o' eof sized content seen
        none_left e =
      cc
  process_body-deliver d none shard payload rest o' eof sized content seen none_left e = cc
