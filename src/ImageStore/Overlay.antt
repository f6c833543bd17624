-- ===== src/ImageStore/Overlay.antt =====
-- src/image_store/fs_overlay.rs: files that bypass the image store and go to a pipe of their own
-- (`--ext-file-fds`); and the write to a plain file in src/image_store/fs.rs, which is that of the pipe.
--
-- A pipe that the Rust program drops stays in the model, among the `closed` ones, to say what was
-- written to it.
pub mod Exact
use cedana_image_streamer.Prelude.{
  ℕ, ◌≡◌, refl, Bytes, Option, none, some, List, [], ◌∷◌, length, take_all, append-nil,
  append_assoc, concat, Result, ok, ◌>>=◌, arith, ◌∙◌,
}
use cedana_image_streamer.Prelude.Map
use cedana_image_streamer.Prelude.Map.{Map}
use cedana_image_streamer.UnixPipe.{Kernel, Progresses, WritePipe, splice_all}
use cedana_image_streamer.UnixPipe.Splice.{IsOpen, append_to, splice_all_open}
use cedana_image_streamer.ImageStore.{ImageStore}

pub record OverlayStore (Store : Type 0) : Type 0 where
  pub underlying_store : Store
  pub overlayed_files : Map WritePipe
  pub closed : List (Bytes × WritePipe)

pub data OverlayFile (File : Type 0) : Type 0 where
  overlayed : WritePipe → OverlayFile File
  underlying : File → OverlayFile File

unfoldable pub add_overlay :
    {Store : Type 0} → OverlayStore Store → Bytes → WritePipe → OverlayStore Store
add_overlay s name file = record s { overlayed_files = Map.insert name file s.overlayed_files }

module _ {Store File : Type 0} (kernel : Kernel) (ops : ImageStore Store File) where
  unfoldable pub create_over :
      OverlayStore Store → Bytes → Option WritePipe → Result (OverlayStore Store × OverlayFile File)
  create_over s name (some file) =
      ok (record s { overlayed_files = Map.without name s.overlayed_files }, overlayed file)
  create_over s name none = do
    (store, file) ← ops.create s.underlying_store name
    ok (record s { underlying_store = store }, underlying file)

  unfoldable pub create :
      OverlayStore Store → Bytes → Result (OverlayStore Store × OverlayFile File)
  unfolding create_over
  create s name = create_over s name (Map.get name s.overlayed_files)

  unfoldable pub insert :
      OverlayStore Store → Bytes → OverlayFile File → Result (OverlayStore Store)
  insert s name (overlayed file) = ok (record s { closed = (name, file) ∷ s.closed })
  insert s name (underlying file) = do
    store ← ops.insert s.underlying_store name file
    ok (record s { underlying_store = store })

  unfoldable pub write_all_from_pipe :
      OverlayStore Store
      → OverlayFile File
      → Bytes
      → ℕ
      → Result (OverlayStore Store × OverlayFile File × Bytes)
  write_all_from_pipe s (overlayed file) pipe size = do
    (rest, file') ← splice_all kernel pipe file size
    ok (s, overlayed file', rest)
  write_all_from_pipe s (underlying file) pipe size = do
    (store, file', rest) ← ops.write_all_from_pipe s.underlying_store file pipe size
    ok (record s { underlying_store = store }, underlying file', rest)

  -- `impl ImageStore for Store`
  abbrev pub overlay_store : ImageStore (OverlayStore Store) (OverlayFile File)
  overlay_store = record {
    create = create;
    insert = insert;
    write_all_from_pipe = write_all_from_pipe;
  }

  -- The life of a file in a store: it is created, its pieces are written, it is inserted.
  unfoldable pub write_pieces :
      OverlayStore Store
      → OverlayFile File
      → List Bytes
      → Result (OverlayStore Store × OverlayFile File)
  write_pieces s file [] = ok (s, file)
  write_pieces s file (piece ∷ pieces) = do
    (s', file', rest) ← write_all_from_pipe s file piece (length piece)
    write_pieces s' file' pieces

  unfoldable pub store_file : OverlayStore Store → Bytes → List Bytes → Result (OverlayStore Store)
  store_file s name pieces = do
    (s1, file) ← create s name
    (s2, file') ← write_pieces s1 file pieces
    insert s2 name file'

  write_pieces-overlayed :
      (s : OverlayStore Store) (file : WritePipe) (pieces : List Bytes)
      → Progresses kernel
      → IsOpen file
      → write_pieces s (overlayed file) pieces ≡ ok (s, overlayed (append_to file (concat pieces)))
  unfolding write_pieces write_all_from_pipe
  write_pieces-overlayed s file [] law h = rw append-nil
  write_pieces-overlayed s file (piece ∷ pieces) law h =
      rw
        (
          splice_all_open kernel piece file (length piece) law h (omega arith),
          take_all (length piece) piece (omega arith),
        )
        (write_pieces-overlayed s (append_to file piece) pieces law h ∙ rw append_assoc)

  -- Let a name have an overlay whose pipe stays open, and let the kernel make progress. A file of that
  -- name that is created, written in pieces and inserted goes to the pipe, byte by byte, and the
  -- underlying store is not touched; the overlay is used up.
  pub store_file-overlayed :
      (s : OverlayStore Store) (name : Bytes) (file : WritePipe) (pieces : List Bytes)
      → Progresses kernel
      → IsOpen file
      → Map.get name s.overlayed_files ≡ some file
      → store_file s name pieces
        ≡ ok (record s {
          overlayed_files = Map.without name s.overlayed_files;
          closed = (name, append_to file (concat pieces)) ∷ s.closed;
        })
  unfolding store_file create create_over insert
  store_file-overlayed s name file pieces law h e =
      rw
        (
          e,
          write_pieces-overlayed (record s { overlayed_files = Map.without name s.overlayed_files })
              file pieces law h,
        )
        refl
