-- ===== src/Extract/Stored.antt =====
-- What the replay of one file's events leaves in the image store in memory.
use cedana_image_streamer.Prelude.{
  ℕ, ◌<◌, ◌≡◌, refl, true, false, Bytes, none, some, List, [], ◌∷◌, ◌++◌, map, concat, length,
  append-nil, append_assoc, take_all, ok, arith, ◌∙◌,
}
use cedana_image_streamer.Prelude.Map
use cedana_image_streamer.Prelude.Map.{Map}
use cedana_image_streamer.Image.{filename, file_data, file_eof}
use cedana_image_streamer.Stream.{Event}
use cedana_image_streamer.ImageStore.Mem.{File, new_small, insert, insert_new, slices, mem_store}
use cedana_image_streamer.ImageStore.Mem.Write.{contents, IsValid, write_all_from_pipe-contents}
use cedana_image_streamer.Extract.Sink.{
  Output, put_back, open_or_create, select_img_file, write_current, finish_current,
}
use cedana_image_streamer.Extract.Replay.{deliver_body, deliver, replay}

abbrev pub data_event : Bytes → Event
data_event chunk = (some (file_data (length chunk)), chunk)

-- The events of a whole file, in chunks.
abbrev pub file_events : Bytes → List Bytes → List Event
file_events name chunks =
    (some (filename name), []) ∷ (map data_event chunks ++ (some (file_eof true), []) ∷ [])

module _ (max_small max_large : ℕ) (room : max_small < max_large) where
  abbrev writing : Output (Map File) File → Bytes → File → Output (Map File) File
  writing o name file = record o { current_img_file = some (name, file) }

  -- The chunks end up behind the contents of the current file.
  replay-data_event :
      (o : Output (Map File) File) (name : Bytes) (file : File) (chunks : List Bytes)
      (rest : List Event)
      → IsValid max_small file
      → (file' : File) × (replay
            (mem_store max_small max_large)
            (writing o name file, false)
            (map data_event chunks ++ rest)
          ≡ replay (mem_store max_small max_large) (writing o name file', false) rest)
        × (contents file' ≡ contents file ++ concat chunks)
        × IsValid max_small file'
  unfolding replay deliver deliver_body write_current
  replay-data_event o name file [] rest v = (file, refl, rw append-nil, v)
  replay-data_event o name file (chunk ∷ chunks) rest v =
      let (f, w, same, v') =
        write_all_from_pipe-contents max_small max_large room file chunk (length chunk) v
          (omega arith) in
      let (file', r, same', v'') = replay-data_event o name f chunks rest v' in
      (
        file',
        rw w r,
        same' ∙ rw (same, take_all (length chunk) chunk (omega arith), append_assoc),
        v'',
      )

  replay-filename :
      (o : Output (Map File) File) (name : Bytes) (rest : List Event)
      → o.current_img_file ≡ none
      → Map.get name o.img_files ≡ none
      → replay (mem_store max_small max_large) (o, false) ((some (filename name), []) ∷ rest)
        ≡ replay (mem_store max_small max_large) (writing o name new_small, false) rest
  unfolding replay deliver deliver_body select_img_file put_back open_or_create
  replay-filename o name rest c f = rw (c, f) refl

  replay-file_eof :
      (o : Output (Map File) File) (name : Bytes) (file : File)
      → o.current_img_file ≡ none
      → Map.get name o.img_store ≡ none
      → replay
          (mem_store max_small max_large)
          (writing o name file, false)
          ((some (file_eof true), []) ∷ [])
        ≡ ok (record o { img_store = Map.insert name file o.img_store }, false)
  unfolding replay deliver deliver_body finish_current insert insert_new
  replay-file_eof o name file c s = rw (c, s) refl

  -- Let no file be current, and let a name be neither among the open files nor in the store. Replaying
  -- a file of that name in any chunks succeeds, and puts into the store in memory one more file, whose
  -- contents are the chunks one after the other.
  pub replay-file_events :
      (o : Output (Map File) File) (name : Bytes) (chunks : List Bytes)
      → o.current_img_file ≡ none
      → Map.get name o.img_files ≡ none
      → Map.get name o.img_store ≡ none
      → (file : File) × (replay (mem_store max_small max_large) (o, false) (file_events name chunks)
          ≡ ok (record o { img_store = Map.insert name file o.img_store }, false))
        × (contents file ≡ concat chunks)
  unfolding contents slices
  replay-file_events o name chunks c f s =
      let rest = (some (file_eof true), []) ∷ [] in
      let (file, r, same, v) = replay-data_event o name new_small chunks rest (omega arith) in
      (
        file,
        replay-filename o name (map data_event chunks ++ rest) c f
            ∙ r
            ∙ replay-file_eof o name file c s,
        same,
      )
