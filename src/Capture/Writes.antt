-- ===== src/Capture/Writes.antt =====
-- What one write does to the shards: `write_to_shard`, the measuring of the shards and the choice
-- among them.
use cedana_image_streamer.Prelude.{
  ℕ, ◌+◌, ◌*◌, ◌<◌, ◌≤◌, ◌≡◌, Bytes, Option, none, some, List, [], ◌∷◌, ◌++◌, length, take, drop,
  map, ◌-ℤ◌, Result, ok, >>=-eq-ok, arith,
}
use cedana_image_streamer.Heap.Laws.{peek-eq-some}
use cedana_image_streamer.Util.{kb, frame, pb_write}
use cedana_image_streamer.Util.RoundTrip.{pb_write-eq-ok}
use cedana_image_streamer.UnixPipe.{WritePipe, write_all, fionread}
use cedana_image_streamer.UnixPipe.Splice.{
  Wrote, Wrote-nil, Wrote-append, write_all-Wrote, splice_all-Wrote,
}
use cedana_image_streamer.System.{System}
use cedana_image_streamer.Capture.{
  as_i32, Shard, Chunk, refresh_remaining_space, refresh_all, most_room, shard_less, data_size,
  write_data, write_to_shard, refresh_if_short,
}

-- What a chunk takes from its source pipe, and what it leaves there.
abbrev pub payload : Option (Bytes × ℕ) → Bytes
payload none = []
payload (some (src, n)) = take n src

abbrev pub remainder : Option (Bytes × ℕ) → Bytes
remainder none = []
remainder (some (src, n)) = drop n src

abbrev pub available : Option (Bytes × ℕ) → ℕ
available none = 0
available (some (src, n)) = length src

module _ (sys : System) where
  pub record WroteChunk (shard : Shard) (chunk : Chunk) (shard' : Shard) (left : Bytes) (size : ℕ)
      : Type 0 where
    pub wrote : Wrote shard.pipe (frame sys.codec chunk.marker ++ payload chunk.content) shard'.pipe
    pub fits : length (sys.codec.encode chunk.marker) < 10 * kb
    pub enough : data_size chunk.content ≤ available chunk.content
    pub left_eq : left ≡ remainder chunk.content
    pub size_eq : size ≡ length (frame sys.codec chunk.marker) + data_size chunk.content
    pub space :
        shard'.remaining_space
        ≡ as_i32 (shard.remaining_space -ℤ (sys.page_size + data_size chunk.content))
    pub counted : shard'.bytes_written ≡ shard.bytes_written + size

  write_data-Wrote :
      (content : Option (Bytes × ℕ)) (pipe : WritePipe) (left : Bytes) (pipe' : WritePipe)
      → write_data sys content pipe ≡ ok (left, pipe')
      → (data_size content ≤ available content)
        × (left ≡ remainder content)
        × Wrote pipe (payload content) pipe'
  unfolding write_data
  write_data-Wrote none pipe left pipe' e =
      (omega arith, ground arith, ground (arith, Wrote-nil pipe))
  write_data-Wrote (some (src, n)) pipe left pipe' e =
      splice_all-Wrote sys.kernel src pipe n left pipe' e

  pub write_to_shard-WroteChunk :
      (shard : Shard) (chunk : Chunk) (shard' : Shard) (left : Bytes) (size : ℕ)
      → write_to_shard sys shard chunk ≡ ok (shard', left, size)
      → WroteChunk shard chunk shard' left size
  unfolding write_to_shard
  write_to_shard-WroteChunk shard chunk shard' left size e =
      let ((pipe, n), e1, e') =
        >>=-eq-ok (pb_write sys.codec write_all shard.pipe chunk.marker) _ e in
      let ((left', pipe'), e2, e3) = >>=-eq-ok (write_data sys chunk.content pipe) _ e' in
      let (fits, w, m) = pb_write-eq-ok sys.codec write_all shard.pipe chunk.marker pipe n e1 in
      let (enough, l, v) = write_data-Wrote chunk.content pipe left' pipe' e2 in
      finish pipe n left' pipe' fits enough l
        (Wrote-append (write_all-Wrote shard.pipe (frame sys.codec chunk.marker) pipe w) v) m e3
    where
      finish :
          (pipe : WritePipe) (n : ℕ) (left' : Bytes) (pipe' : WritePipe)
          → length (sys.codec.encode chunk.marker) < 10 * kb
          → data_size chunk.content ≤ available chunk.content
          → left' ≡ remainder chunk.content
          → Wrote shard.pipe (frame sys.codec chunk.marker ++ payload chunk.content) pipe'
          → n ≡ length (frame sys.codec chunk.marker)
          → ◌≡◌ {A = Result (Shard × Bytes × ℕ)}
              (ok (
                record {
                  pipe = pipe';
                  remaining_space =
                      as_i32 (shard.remaining_space -ℤ (sys.page_size + data_size chunk.content));
                  bytes_written = shard.bytes_written + (n + data_size chunk.content);
                },
                left',
                n + data_size chunk.content,
              ))
              (ok (shard', left, size))
          → WroteChunk shard chunk shard' left size
      finish pipe n left' pipe' fits enough l w m e3 = ground arith

abbrev pub pipes : List Shard → List WritePipe
pipes shards = map (λ s. s.pipe) shards

same_pipe :
    (now capacity : ℕ) (s t : Shard)
    → refresh_remaining_space now capacity s ≡ ok t
    → t.pipe ≡ s.pipe
unfolding refresh_remaining_space fionread
same_pipe now capacity s t e = ground arith

-- Measuring the shards leaves their pipes alone.
pub pipes-refresh_all :
    (now capacity : ℕ) (shards shards' : List Shard)
    → refresh_all now capacity shards ≡ ok shards'
    → pipes shards' ≡ pipes shards
unfolding refresh_all
pipes-refresh_all now capacity [] shards' e = ground arith
pipes-refresh_all now capacity (s ∷ rest) shards' e =
    let (t, e1, e') = >>=-eq-ok (refresh_remaining_space now capacity s) _ e in
    let (rest', e2, e3) = >>=-eq-ok (refresh_all now capacity rest) _ e' in
    ground (arith, pipes-refresh_all now capacity rest rest' e2, same_pipe now capacity s t e1)

pub pipes-refresh_if_short :
    (sys : System) (now capacity space : ℕ) (shards shards' : List Shard)
    → refresh_if_short sys now capacity space shards ≡ ok shards'
    → pipes shards' ≡ pipes shards
unfolding refresh_if_short
pipes-refresh_if_short sys now capacity space shards shards' e =
    let ((front, shard, back), _, e') = >>=-eq-ok (most_room shards) _ e in
    ground (arith, pipes-refresh_all now capacity shards shards')

pub most_room-eq-ok :
    (shards front back : List Shard) (shard : Shard)
    → most_room shards ≡ ok (front, shard, back)
    → front ++ shard ∷ back ≡ shards
unfolding most_room
most_room-eq-ok shards front back shard e =
    ground (arith, peek-eq-some shard_less shards front back shard)
