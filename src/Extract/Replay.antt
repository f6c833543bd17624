-- ===== src/Extract/Replay.antt =====
-- What the extraction is meant to do: to replay the markers of the image one after the other, in the
-- order of their sequence numbers, with no shards and no waiting.
use cedana_image_streamer.Prelude.{
  Bool, true, false, Bytes, Option, none, some, List, [], ◌∷◌, ◌++◌, ◌≡◌, length, Result, ok, err,
  ◌>>=◌, ◌>>◌, ensure, unexpected_image_eof, malformed_marker, data_after_image_eof,
}
use cedana_image_streamer.Image.{Body, filename, file_data, file_eof, image_eof}
use cedana_image_streamer.Stream.{Event}
use cedana_image_streamer.ImageStore.{ImageStore}
use cedana_image_streamer.Extract.{is_nil}
use cedana_image_streamer.Extract.Sink.{Output, select_img_file, write_current, finish_current}

-- The data behind a marker is as long as the marker says.
abbrev pub IsSized : Option Body → Bytes → Type 0
IsSized (some (file_data size)) payload = size ≡ length payload
IsSized (some (filename name)) payload = payload ≡ []
IsSized (some (file_eof b)) payload = payload ≡ []
IsSized (some (image_eof b)) payload = payload ≡ []
IsSized none payload = payload ≡ []

module _ {Store File : Type 0} (ops : ImageStore Store File) where
  -- One event, before the end of the image. The answer tells whether it was the end of the image.
  unfoldable pub deliver_body :
      Output Store File → Option Body → Bytes → Result (Output Store File × Bool)
  deliver_body o (some (filename name)) payload = do o' ← select_img_file ops o name; ok (o', false)
  deliver_body o (some (file_data size)) payload = do
    (o', rest) ← write_current ops o payload size o.current_img_file
    ok (o', false)
  deliver_body o (some (file_eof true)) payload = do
    o' ← finish_current ops o o.current_img_file
    ok (o', false)
  deliver_body o (some (image_eof true)) payload = do
    ensure (is_nil o.img_files) unexpected_image_eof
    ok (o, true)
  deliver_body o (some (file_eof false)) payload = err malformed_marker
  deliver_body o (some (image_eof false)) payload = err malformed_marker
  deliver_body o none payload = err malformed_marker

  -- Nothing may come after the end of the image.
  unfoldable pub deliver : Output Store File × Bool → Event → Result (Output Store File × Bool)
  deliver (o, true) (body, payload) = err data_after_image_eof
  deliver (o, false) (body, payload) = deliver_body o body payload

  unfoldable pub replay : Output Store File × Bool → List Event → Result (Output Store File × Bool)
  replay z [] = ok z
  replay z (e ∷ es) = do z' ← deliver z e; replay z' es

  -- What an image store promises of `write_all_from_pipe`: that it takes as many bytes from the pipe
  -- as it is told to, and does not look at those behind them.
  abbrev pub TakesExactly : Type 0
  TakesExactly =
      (store : Store) (file : File) (payload rest : Bytes) (store' : Store) (file' : File)
      (left : Bytes)
      → ops.write_all_from_pipe store file payload (length payload) ≡ ok (store', file', left)
      → ops.write_all_from_pipe store file (payload ++ rest) (length payload)
        ≡ ok (store', file', rest)
