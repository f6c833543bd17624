-- ===== src/Capture.antt =====
-- src/capture.rs: the image serializer, which cuts the image files into chunks and spreads them over
-- the shards.
--
-- The image serializer owns the shards that the Rust struct borrows. Its binary heap of shards is the
-- list of these shards in the order of the slice, from which the greatest is picked. The counters
-- (`seq`, `bytes_written`, ..) are unbounded: to reach 2^64 they would take as many bytes.
-- `remaining_space` is an i32 that wraps around, as in a release build.
pub mod Writes
pub mod Log
pub mod Drain
pub mod Halts
pub mod Session
pub mod Sized
pub mod Finish
pub mod Rounds
pub mod Whole
pub mod Choice
use cedana_image_streamer.Prelude.{
  ℕ, zero, suc, ◌+◌, ◌-◌, ◌*◌, ◌/◌, ◌%◌, ◌^◌, min, max, ◌==◌, ltb, if◌then◌else◌, Bool, true, false,
  not, ◌&&◌, ◌||◌, Bytes, ◌=?=◌, Option, none, some, List, [], ◌∷◌, ◌++◌, length, ℤ, pos, sub_ℕ,
  ◌-ℤ◌, negsuc, ltℤ, Result, ok, err, panic, out_of_fuel, ◌>>=◌, ◌>>◌, assertion, unwrap_none,
  ensure, ioctl_failed, json_failed,
}
use cedana_image_streamer.Heap.{peek}
use cedana_image_streamer.Image.{Body, filename, file_data, file_eof, image_eof, Marker}
use cedana_image_streamer.Util.{pb_write}
use cedana_image_streamer.Util.Files.{is_small_file, metadata_file}
use cedana_image_streamer.UnixPipe.{WritePipe, write_all, fionread, splice_all}
use cedana_image_streamer.System.{System}

-- An image file that comes from the client: the bytes in its pipe, whether fionread() works on the pipe, and
-- its name.
pub record ImageFile : Type 0 where
  pub pipe : Bytes
  pub has_fionread : Bool
  pub name : Bytes

pub record Shard : Type 0 where
  pub pipe : WritePipe
  pub remaining_space : ℤ
  pub bytes_written : ℕ

-- The i32 whose value is `n`, for an `n` below 2^32.
abbrev pub signed : ℕ → ℤ
signed n = if ltb n 2147483648 then pos n else sub_ℕ n 4294967296

-- An integer, wrapped around to an i32.
unfoldable pub as_i32 : ℤ → ℤ
as_i32 (pos n) = signed (n % 2 ^ 32)
as_i32 (negsuc n) = signed (4294967295 - n % 2 ^ 32)

-- `Shard::new`
unfoldable pub new_shard : WritePipe → Shard
new_shard pipe = record { pipe = pipe; remaining_space = pos 0; bytes_written = 0 }

-- What fionread() finds in the shard's pipe at the moment `now`, taken from the capacity.
unfoldable pub refresh_remaining_space : ℕ → ℕ → Shard → Result Shard
unfolding as_i32
refresh_remaining_space now pipe_capacity s = do
  pipe_len ← fionread s.pipe now
  ok (record s { remaining_space = as_i32 (sub_ℕ pipe_capacity pipe_len) })

-- `impl_ord_by!(Shard, ..)`: by the remaining space, then by the file descriptor.
unfoldable pub shard_less : Shard → Shard → Bool
shard_less a b =
    ltℤ a.remaining_space b.remaining_space
    || (not (ltℤ b.remaining_space a.remaining_space) && ltb a.pipe.fd b.pipe.fd)

pub record ImageSerializer : Type 0 where
  pub small_file_shard : Shard
  pub small_file_seq : ℕ
  pub shards : List Shard
  pub shard_pipe_capacity : ℕ
  pub seq : ℕ
  pub current_filename : Option Bytes
  pub current_file_size : ℕ
  pub metadata : List Bytes

-- A marker, and the pipe with the number of bytes that follow the marker.
pub record Chunk : Type 0 where
  pub marker : Marker
  pub content : Option (Bytes × ℕ)

-- `ImageSerializer::new`: the first shard is for the small files, and there is another one.
unfoldable pub new : List Shard → ℕ → Result ImageSerializer
new [] capacity = panic assertion
new (x ∷ []) capacity = panic assertion
new (x ∷ y ∷ rest) capacity = ok (record {
  small_file_shard = x;
  small_file_seq = 0;
  shards = y ∷ rest;
  shard_pipe_capacity = capacity;
  seq = 0;
  current_filename = none;
  current_file_size = 0;
  metadata = [];
})

unfoldable pub gen_marker : ImageSerializer → Body → Bool → ImageSerializer × Marker
gen_marker s body true = (
  record s { small_file_seq = s.small_file_seq + 1 },
  record { seq = s.small_file_seq; body = some body },
)
gen_marker s body false = (record s { seq = s.seq + 1 }, record { seq = s.seq; body = some body })

unfoldable pub refresh_all : ℕ → ℕ → List Shard → Result (List Shard)
unfolding refresh_remaining_space
refresh_all now capacity [] = ok []
refresh_all now capacity (s ∷ rest) = do
  s' ← refresh_remaining_space now capacity s
  rest' ← refresh_all now capacity rest
  ok (s' ∷ rest')

-- `self.shards.peek_mut().unwrap()`: the shard with the most room, between the others.
unfoldable pub most_room : List Shard → Result (List Shard × Shard × List Shard)
unfolding shard_less peek
most_room shards = elim (peek shard_less shards) [ none ↦ panic unwrap_none | some z ↦ ok z ]

abbrev pub data_size : Option (Bytes × ℕ) → ℕ
data_size none = 0
data_size (some (src, size)) = size

-- Whether the last filename marker named this file.
abbrev pub is_current : Option Bytes → Bytes → Bool
is_current none name = false
is_current (some current) name = current =?= name

-- `serde_json::to_vec(..)?`
unfoldable pub json_or_fail : Option Bytes → Result Bytes
json_or_fail none = err json_failed
json_or_fail (some bytes) = ok bytes

module _ (sys : System) where
  -- The largest payload. The i32 difference may be negative; a page is more, either way.
  unfoldable pub chunk_max_data_size : ImageSerializer → ℕ
  chunk_max_data_size s = max (s.shard_pipe_capacity / 4 - sys.page_size) sys.page_size

  -- `img_file.pipe.splice_all(&mut shard.pipe, data_size)`, if there is data.
  unfoldable pub write_data : Option (Bytes × ℕ) → WritePipe → Result (Bytes × WritePipe)
  write_data none pipe = ok ([], pipe)
  write_data (some (src, size)) pipe = splice_all sys.kernel src pipe size

  -- The steps that both branches of `write_chunk` make on their shard: the marker, its data, the
  -- counters. The shard, what is left in the source pipe, and the number of bytes written.
  unfoldable pub write_to_shard : Shard → Chunk → Result (Shard × Bytes × ℕ)
  unfolding write_data as_i32
  write_to_shard shard chunk = do
    (pipe, marker_size) ← pb_write sys.codec write_all shard.pipe chunk.marker
    (left, pipe') ← write_data chunk.content pipe
    let size = marker_size + data_size chunk.content
    ok (
      record {
        pipe = pipe';
        remaining_space =
            as_i32 (shard.remaining_space -ℤ (sys.page_size + data_size chunk.content));
        bytes_written = shard.bytes_written + size;
      },
      left,
      size,
    )

  -- If the shard with the most room is likely to block, all are measured again.
  unfoldable pub refresh_if_short : ℕ → ℕ → ℕ → List Shard → Result (List Shard)
  unfolding most_room refresh_all
  refresh_if_short now capacity space_required shards = do
    (front, shard, back) ← most_room shards
    let likely_to_block = ltℤ shard.remaining_space (pos space_required)
    if likely_to_block then refresh_all now capacity shards else ok shards

  -- `write_chunk(chunk, is_small_file)`: the serializer, and what is left in the source pipe. The
  -- number of the chunk stands for the moment at which the shards are measured.
  unfoldable pub write_chunk : ImageSerializer → Chunk → Bool → Result (ImageSerializer × Bytes)
  unfolding write_to_shard refresh_if_short
  write_chunk s chunk true = do
    (shard, left, size) ← write_to_shard s.small_file_shard chunk
    ok (record s { small_file_shard = shard; current_file_size = s.current_file_size + size }, left)
  write_chunk s chunk false = do
    shards ←
        refresh_if_short chunk.marker.seq s.shard_pipe_capacity
          (sys.page_size + data_size chunk.content) s.shards
    (front, shard, back) ← most_room shards
    (shard', left, size) ← write_to_shard shard chunk
    ok (
      record s { shards = front ++ shard' ∷ back; current_file_size = s.current_file_size + size },
      left,
    )

  -- `gen_marker` and `write_chunk` in one: the way every chunk is written.
  unfoldable pub put :
      ImageSerializer → Body → Option (Bytes × ℕ) → Bool → Result (ImageSerializer × Bytes)
  unfolding gen_marker write_chunk
  put s body content small =
      let (s', marker) = gen_marker s body small in
      write_chunk s' (record { marker = marker; content = content }) small

  unfoldable pub maybe_write_filename_marker :
      ImageSerializer → Bytes → Bool → Result ImageSerializer
  unfolding put
  maybe_write_filename_marker s name small = if is_current s.current_filename name then ok s else do
    (s', left) ← put (record s { current_filename = some name }) (filename name) none small
    ok s'

  -- `while readable_len > 0 { .. }`: each round takes a byte at least, if a page has one.
  unfoldable pub drain_loop :
      ℕ → ImageSerializer → Bytes → ℕ → Bool → Result (ImageSerializer × Bytes)
  unfolding put chunk_max_data_size
  drain_loop fuel s pipe zero small = ok (s, pipe)
  drain_loop zero s pipe (suc n) small = out_of_fuel
  drain_loop (suc fuel) s pipe (suc n) small = do
    let size = min (suc n) (chunk_max_data_size s)
    (s', pipe') ← put s (file_data size) (some (pipe, size)) small
    drain_loop fuel s' pipe' (suc n - size) small

  -- `if is_eof { .. }`
  unfoldable pub drain_eof : ImageSerializer → Bytes → Bool → Bool → Result ImageSerializer
  unfolding put
  drain_eof s name small false = ok s
  drain_eof s name small true = do
    (s', left) ← put (record s { metadata = s.metadata ++ name ∷ [] }) (file_eof true) none small
    ok s'

  -- `drain_img_file(img_file)`: the serializer, the image file, and whether there may be more data.
  -- fionread() answers the number of bytes in the pipe, or fails.
  unfoldable pub drain_img_file :
      ImageSerializer → ImageFile → Result (ImageSerializer × ImageFile × Bool)
  unfolding maybe_write_filename_marker drain_loop drain_eof
  drain_img_file s img_file = do
    ensure img_file.has_fionread ioctl_failed
    let readable_len = length img_file.pipe
    let is_eof = readable_len == 0
    let small = is_small_file sys.is_match img_file.name
    s1 ← maybe_write_filename_marker s img_file.name small
    (s2, pipe) ← drain_loop readable_len s1 img_file.pipe readable_len small
    s3 ← drain_eof s2 img_file.name small is_eof
    ok (s3, record img_file { pipe = pipe }, not is_eof)

  unfoldable pub write_metadata_to_small_shard : ImageSerializer → Result ImageSerializer
  unfolding put json_or_fail
  write_metadata_to_small_shard s = do
    (s1, _) ← put s (filename metadata_file) none true
    bytes ← json_or_fail (sys.to_json s1.metadata)
    let (s2, marker) = gen_marker s1 (file_data (length bytes % 2 ^ 32)) true
    let shard = s2.small_file_shard
    (pipe, marker_size) ← pb_write sys.codec write_all shard.pipe marker
    pipe' ← write_all pipe bytes
    let shard' = record shard {
      pipe = pipe';
      bytes_written = shard.bytes_written + (length bytes + marker_size);
    }
    (s3, _) ← put (record s2 { small_file_shard = shard' }) (file_eof true) none true
    ok s3

  unfoldable pub write_image_eof : ImageSerializer → Result ImageSerializer
  unfolding write_metadata_to_small_shard
  write_image_eof s = do
    s1 ← write_metadata_to_small_shard s
    (s2, _) ← put s1 (image_eof true) none false
    ok s2
