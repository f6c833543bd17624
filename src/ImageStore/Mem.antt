-- ===== src/ImageStore/Mem.antt =====
-- src/image_store/mem.rs: the image store in memory. A file is a vector while it fits in a page, and
-- a queue of mapped chunks from there on.
--
-- The store is the map of its files. The two limits are parameters: the page size, and the size of a
-- chunk, which the source sets to `large_chunk`.
pub mod Write
pub mod Copy
pub mod Drain
use cedana_image_streamer.Prelude.{
  ℕ, zero, suc, ◌+◌, ◌-◌, ◌*◌, min, ltb, leb, not, if◌then◌else◌, Bool, true, false, pop, Bytes,
  Option, none, some, List, [], ◌∷◌, ◌++◌, length, take, drop, Result, ok, err, panic, out_of_fuel,
  ◌>>=◌, ◌>>◌, assert, assertion, unwrap_none, short_read,
}
use cedana_image_streamer.Prelude.Map
use cedana_image_streamer.Prelude.Map.{Map}
use cedana_image_streamer.Util.{mb}
use cedana_image_streamer.MmapBuf.{MmapBuf, with_capacity, resize, deref, copy_from_slice}
use cedana_image_streamer.UnixPipe.{Kernel, WritePipe, write_all, vmsplice_all}
use cedana_image_streamer.ImageStore.{ImageStore}

abbrev pub large_chunk : ℕ
large_chunk = 10 * mb

pub data File : Type 0 where
  small : Bytes → File
  large : List MmapBuf → File

abbrev pub new_small : File
new_small = small []

-- `Store::remove`
unfoldable pub remove : Bytes → Map File → Option File × Map File
remove name files = (Map.get name files, Map.without name files)

-- `Store::insert`: a file is never overwritten.
unfoldable pub insert_new : Option File → Map File → Bytes → File → Result (Map File)
insert_new none files name file = ok (Map.insert name file files)
insert_new (some old) files name file = panic assertion

unfoldable pub insert : Map File → Bytes → File → Result (Map File)
unfolding insert_new
insert files name file = insert_new (Map.get name files) files name file

-- The slices that `reader()` hands out, one after the other.
unfoldable pub slices : File → List Bytes
slices (small chunk) = chunk ∷ []
slices (large chunks) = cedana_image_streamer.Prelude.map deref chunks

-- `FileReader::read`, into a buffer of `n` bytes: the bytes read, and the slices left.
unfoldable pub read : List Bytes → ℕ → Bytes × List Bytes
read [] n = ([], [])
read (chunk ∷ chunks) n =
    (take n chunk, if leb (length chunk) n then chunks else drop n chunk ∷ chunks)

module _ (max_small max_large : ℕ) where
  unfoldable pub large_from_slice : Bytes → Result File
  large_from_slice init_data = do
    assert (leb (length init_data) max_large) assertion
    chunk ← with_capacity max_large
    chunk' ← resize (length init_data) chunk
    chunk'' ← copy_from_slice 0 init_data chunk'
    ok (large (chunk'' ∷ []))

  -- The last chunk if it has room, or else a new one behind it.
  unfoldable pub reserve_back : List MmapBuf → Option (List MmapBuf × MmapBuf) → Result File
  reserve_back chunks none = with_capacity max_large >>= λ chunk. ok (large (chunks ++ chunk ∷ []))
  reserve_back chunks (some (front, last)) =
      if ltb last.len last.capacity
      then ok (large chunks)
      else (with_capacity max_large >>= λ chunk. ok (large (chunks ++ chunk ∷ [])))

  unfoldable pub reserve_chunk : File → ℕ → Result File
  unfolding reserve_back large_from_slice
  reserve_chunk (small chunk) size_hint =
      if ltb max_small (length chunk + size_hint) then large_from_slice chunk else ok (small chunk)
  reserve_chunk (large chunks) size_hint = reserve_back chunks (pop chunks)

  -- `reader.read_exact(&mut chunk[offset..])`
  unfoldable pub read_exact : ℕ → Bytes → MmapBuf → ℕ → Result MmapBuf
  read_exact offset reader chunk n =
      if ltb (length reader) n then err short_read else copy_from_slice offset (take n reader) chunk

  -- The last chunk takes as much as it has room for.
  unfoldable pub top_up : Option (List MmapBuf × MmapBuf) → Bytes → ℕ → Result (File × Bytes × ℕ)
  unfolding read_exact
  top_up none reader size = panic unwrap_none
  top_up (some (front, chunk)) reader size = do
    let to_read = min size (chunk.capacity - chunk.len)
    chunk' ← resize (chunk.len + to_read) chunk
    chunk'' ← read_exact chunk.len reader chunk' to_read
    ok (large (front ++ chunk'' ∷ []), drop to_read reader, to_read)

  -- `match self { .. }` of `copy_from_reader`. The small branch answers `size` even if the reader
  -- had less.
  unfoldable pub copy_reserved : File → Bytes → ℕ → Result (File × Bytes × ℕ)
  unfolding top_up
  copy_reserved (small chunk) reader size =
      ok (small (chunk ++ take size reader), drop size reader, size)
  copy_reserved (large chunks) reader size = top_up (pop chunks) reader size

  -- `file.copy_from_reader(reader, size)`: the file, what is left to read, and the number of bytes.
  unfoldable pub copy_from_reader : File → Bytes → ℕ → Result (File × Bytes × ℕ)
  unfolding reserve_chunk copy_reserved
  copy_from_reader file reader size = do
    file' ← reserve_chunk file size
    copy_reserved file' reader size

  -- `while size > 0 { .. }`: each round takes a byte at least.
  unfoldable pub write_loop : ℕ → File → Bytes → ℕ → Result (File × Bytes)
  unfolding copy_from_reader
  write_loop fuel file pipe zero = ok (file, pipe)
  write_loop zero file pipe (suc n) = out_of_fuel
  write_loop (suc fuel) file pipe (suc n) = do
    (file', pipe', written) ← copy_from_reader file pipe (suc n)
    write_loop fuel file' pipe' (suc n - written)

  unfoldable pub write_all_from_pipe : File → Bytes → ℕ → Result (File × Bytes)
  unfolding write_loop
  write_all_from_pipe file pipe size = write_loop size file pipe size

  -- `impl ImageStore for Store`
  abbrev pub mem_store : ImageStore (Map File) File
  mem_store = record {
    create = λ files name. ok (files, new_small);
    insert = insert;
    write_all_from_pipe =
        λ files file pipe size. write_all_from_pipe file pipe size >>= λ z. ok (files, z.0, z.1);
  }

module _ (kernel : Kernel) where
  -- `for chunk in chunks { dst.vmsplice_all(&chunk)?; }`
  unfoldable pub drain_chunks : List MmapBuf → WritePipe → Result WritePipe
  drain_chunks [] dst = ok dst
  drain_chunks (chunk ∷ chunks) dst = do
    dst' ← vmsplice_all kernel (deref chunk) dst
    drain_chunks chunks dst'

  unfoldable pub drain : File → WritePipe → Result WritePipe
  unfolding drain_chunks
  drain (small chunk) dst = write_all dst chunk
  drain (large chunks) dst = drain_chunks chunks dst
