-- ===== src/Extract/Sink.antt =====
-- src/extract.rs, the output side of `ImageDeserializer`: the image files that are open, the current
-- one, and the image store.
use cedana_image_streamer.Prelude.{
  ℕ, Bytes, Option, none, some, Result, ok, err, ◌>>=◌, unexpected_file_data, unexpected_file_eof,
}
use cedana_image_streamer.Prelude.Map
use cedana_image_streamer.Prelude.Map.{Map}
use cedana_image_streamer.ImageStore.{ImageStore}

-- `img_store`, `img_files` and `current_img_file`.
pub record Output (Store File : Type 0) : Type 0 where
  pub img_store : Store
  pub img_files : Map File
  pub current_img_file : Option (Bytes × File)

-- `if let Some((filename, output)) = self.current_img_file.take() { self.img_files.insert(..) }`
unfoldable pub put_back : {File : Type 0} → Option (Bytes × File) → Map File → Map File
put_back none files = files
put_back (some (name, file)) files = Map.insert name file files

module _ {Store File : Type 0} where
  -- The file is taken out of the open ones, or created.
  unfoldable pub open_or_create :
      ImageStore Store File → Store → Bytes → Map File → Option File → Result (Output Store File)
  open_or_create ops store name files (some file) = ok (record {
    img_store = store;
    img_files = Map.without name files;
    current_img_file = some (name, file);
  })
  open_or_create ops store name files none = do
    (store', file) ← ops.create store name
    ok (record { img_store = store'; img_files = files; current_img_file = some (name, file) })

  unfoldable pub select_img_file :
      ImageStore Store File → Output Store File → Bytes → Result (Output Store File)
  select_img_file ops o name =
      let files = put_back o.current_img_file o.img_files in
      open_or_create ops o.img_store name files (Map.get name files)

  -- The `FileData` branch: the current file takes `size` bytes of the shard's pipe.
  unfoldable pub write_current :
      ImageStore Store File
      → Output Store File
      → Bytes
      → ℕ
      → Option (Bytes × File)
      → Result (Output Store File × Bytes)
  write_current ops o pipe size none = err unexpected_file_data
  write_current ops o pipe size (some (name, file)) = do
    (store, file', rest) ← ops.write_all_from_pipe o.img_store file pipe size
    ok (record o { img_store = store; current_img_file = some (name, file') }, rest)

  -- The `FileEof` branch: the current file goes to the store.
  unfoldable pub finish_current :
      ImageStore Store File → Output Store File → Option (Bytes × File) → Result (Output Store File)
  finish_current ops o none = err unexpected_file_eof
  finish_current ops o (some (name, file)) = do
    store ← ops.insert o.img_store name file
    ok (record o { img_store = store; current_img_file = none })
