-- ===== src/Extract.antt =====
-- src/extract.rs: the image deserializer, which puts the markers of the shards in order again and
-- replays them into an image store.
--
-- A shard's pipe is the list of the bytes up to its end. What poll() answers is an argument of each
-- round: it takes the number of descriptors to the indices that are ready, or to an error. A shard whose
-- end is reached is dropped from the three collections; the slice that owns it keeps it for the
-- statistics, and so does `eof_shards` here. The deserializer moves shards, where the source moves
-- references to them.
pub mod Sink
pub mod Replay
pub mod Invariant
pub mod Queues
pub mod Deliver
pub mod Order
pub mod Process
pub mod Loop
pub mod Shards
pub mod Reassembly
pub mod InOrder
pub mod Stored
pub mod Small
pub mod Setup
use cedana_image_streamer.Prelude.{
  pop, ℕ, zero, suc, ◌+◌, ◌==◌, ltb, leb, if◌then◌else◌, Bool, true, false, not, ◌&&◌, ◌||◌, Bytes,
  ◌=?=◌, Option, none, some, List, [], ◌∷◌, ◌++◌, length, take, drop, Result, ok, err, panic,
  out_of_fuel, ◌>>=◌, ◌>>◌, ensure, assert, assertion, unexpected_image_eof, malformed_marker,
  data_after_image_eof, no_shards, json_failed, unexpected_file_data, unexpected_file_eof,
}
use cedana_image_streamer.Heap.{peek}
use cedana_image_streamer.Image.{Body, filename, file_data, file_eof, image_eof, Marker}
use cedana_image_streamer.Util.{pb_read_next}
use cedana_image_streamer.Util.Files.{metadata_file}
use cedana_image_streamer.ImageStore.{ImageStore}
use cedana_image_streamer.System.{System}
use cedana_image_streamer.Extract.Sink.{Output, select_img_file, write_current, finish_current}

pub record ReadPipe : Type 0 where
  pub fd : ℕ
  pub content : Bytes

pub record Shard : Type 0 where
  pub pipe : ReadPipe
  pub transfer_duration_millis : ℕ
  pub bytes_read : ℕ

-- `Shard::new`
unfoldable pub new_shard : ReadPipe → Shard
new_shard pipe = record { pipe = pipe; transfer_duration_millis = 0; bytes_read = 0 }

pub record PendingMarker : Type 0 where
  pub marker : Marker
  pub shard : Shard

-- `impl_ord_by!(PendingMarker<'a>, ..)`: the lowest sequence number is the greatest.
unfoldable pub pending_less : PendingMarker → PendingMarker → Bool
pending_less a b = ltb b.marker.seq a.marker.seq

pub record ImageDeserializer (Store File : Type 0) : Type 0 where
  pub small_file_shard : Shard
  pub small_file_seq : ℕ
  pub metadata : Option (List Bytes)
  pub shards : List Shard
  pub readable_shards : List Shard
  pub pending_markers : List PendingMarker
  pub seq : ℕ
  pub output : Output Store File
  pub image_eof_seen : Bool
  pub eof_shards : List Shard

-- The shards whose index, counted from `i`, is readable, and the others.
unfoldable pub split_readable : (ℕ → Bool) → ℕ → List Shard → List Shard × List Shard
split_readable ready i [] = ([], [])
split_readable ready i (s ∷ rest) =
    let (readable, waiting) = split_readable ready (suc i) rest in
    if ready i then (s ∷ readable, waiting) else (readable, s ∷ waiting)

abbrev pub is_nil {ℓ} : {A : Type ℓ} → List A → Bool
is_nil [] = true
is_nil (x ∷ xs) = false

module _ {Store File : Type 0} where
  -- `ImageDeserializer::new`
  unfoldable pub new : Store → List Shard → Result (ImageDeserializer Store File)
  new store [] = panic assertion
  new store (x ∷ []) = panic assertion
  new store (x ∷ y ∷ rest) = ok (record {
    small_file_shard = x;
    small_file_seq = 0;
    metadata = none;
    shards = y ∷ rest;
    readable_shards = [];
    pending_markers = [];
    seq = 0;
    output = record { img_store = store; img_files = []; current_img_file = none };
    image_eof_seen = false;
    eof_shards = [];
  })

  -- `ensure!(self.img_files.is_empty() && self.pending_markers.is_empty(), ..)`
  unfoldable pub mark_image_eof :
      ImageDeserializer Store File → Result (ImageDeserializer Store File)
  mark_image_eof d = do
    ensure (is_nil d.output.img_files && is_nil d.pending_markers) unexpected_image_eof
    ok (record d { image_eof_seen = true })

  unfoldable pub get_next_in_order_marker :
      ImageDeserializer Store File → Option PendingMarker × ImageDeserializer Store File
  get_next_in_order_marker d = elim (peek pending_less d.pending_markers) [
    | none ↦ (none, d)
    | some (front, m, back) ↦
        if m.marker.seq == d.seq
        then (some m, record d { pending_markers = front ++ back })
        else (none, d)
  ]

  -- The vectors after poll() has said which shards are readable.
  unfoldable pub move_readable :
      (ℕ → Bool) → ImageDeserializer Store File → Result (ImageDeserializer Store File)
  move_readable ready d = do
    let (readable, waiting) = split_readable ready 0 d.shards
    assert (not (is_nil readable)) assertion
    ok (record d { shards = waiting; readable_shards = readable })

  unfoldable pub pop_readable :
      ImageDeserializer Store File → Option Shard × ImageDeserializer Store File
  pop_readable d = elim (pop d.readable_shards) [
    | none ↦ (none, d)
    | some (rest, shard) ↦ (some shard, record d { readable_shards = rest })
  ]

  unfoldable pub pop_shard :
      ImageDeserializer Store File → Option Shard × ImageDeserializer Store File
  pop_shard d = elim (pop d.shards) [
    | none ↦ (none, d)
    | some (rest, shard) ↦ (some shard, record d { shards = rest })
  ]

  unfoldable pub get_next_readable_shard :
      (ℕ → Result (ℕ → Bool))
      → ImageDeserializer Store File
      → Result (Option Shard × ImageDeserializer Store File)
  get_next_readable_shard poll d =
      if is_nil d.readable_shards
      then (if leb (length d.shards) 1
          then ok (pop_shard d)
          else (poll (length d.shards) >>= λ ready.
              move_readable ready d >>= λ d'. ok (pop_readable d')))
      else ok (pop_readable d)

module _ {Store File : Type 0} (sys : System) (ops : ImageStore Store File) where
  -- The branches of `process_marker`.
  unfoldable pub process_body :
      ImageDeserializer Store File
      → Option Body
      → Shard
      → Result (ImageDeserializer Store File × Shard)
  process_body d (some (filename name)) shard = do
    o ← select_img_file ops d.output name
    ok (record d { output = o }, shard)
  process_body d (some (file_data size)) shard = do
    (o, rest) ← write_current ops d.output shard.pipe.content size d.output.current_img_file
    ok (
      record d { output = o },
      record shard {
        pipe = record shard.pipe { content = rest };
        bytes_read = shard.bytes_read + size;
      },
    )
  process_body d (some (file_eof true)) shard = do
    o ← finish_current ops d.output d.output.current_img_file
    ok (record d { output = o }, shard)
  process_body d (some (image_eof true)) shard = do d' ← mark_image_eof d; ok (d', shard)
  process_body d (some (file_eof false)) shard = err malformed_marker
  process_body d (some (image_eof false)) shard = err malformed_marker
  process_body d none shard = err malformed_marker

  unfoldable pub process_marker :
      ImageDeserializer Store File → Marker → Shard → Result (ImageDeserializer Store File × Shard)
  process_marker d marker shard = process_body d marker.body shard

  -- Each round takes one pending marker, so their number is enough fuel.
  unfoldable pub process_loop :
      ℕ
      → Option PendingMarker × ImageDeserializer Store File
      → Result (ImageDeserializer Store File)
  process_loop fuel (none, d) = ok d
  process_loop zero (some m, d) = out_of_fuel
  process_loop (suc fuel) (some m, d) = do
    (d', shard) ← process_marker d m.marker m.shard
    let d'' = record d' { seq = d'.seq + 1; shards = d'.shards ++ shard ∷ [] }
    process_loop fuel (get_next_in_order_marker d'')

  unfoldable pub process_pending_markers :
      ImageDeserializer Store File → Result (ImageDeserializer Store File)
  process_pending_markers d = process_loop (length d.pending_markers) (get_next_in_order_marker d)

  -- `match pb_read_next(&mut shard.pipe)? { .. }`; `now` is the time since the start.
  unfoldable pub drain_marker :
      ℕ
      → ImageDeserializer Store File
      → Shard
      → Option (Marker × ℕ)
      → Bytes
      → Result (ImageDeserializer Store File)
  drain_marker now d shard none rest = ok (record d {
    eof_shards =
        record shard { pipe = record shard.pipe { content = rest }; transfer_duration_millis = now }
        ∷ d.eof_shards;
  })
  drain_marker now d shard (some (marker, marker_size)) rest = do
    ensure (not d.image_eof_seen) data_after_image_eof
    let shard' = record shard {
      pipe = record shard.pipe { content = rest };
      bytes_read = shard.bytes_read + marker_size;
    }
    process_pending_markers (record d {
      pending_markers = record { marker = marker; shard = shard' } ∷ d.pending_markers;
    })

  unfoldable pub drain_shard :
      ℕ → ImageDeserializer Store File → Shard → Result (ImageDeserializer Store File)
  drain_shard now d shard = do
    (found, rest) ← pb_read_next sys.codec shard.pipe.content
    drain_marker now d shard found rest

  -- What poll() answers in each round, given the number of descriptors, and the time at each round.
  module _ (poll : ℕ → ℕ → Result (ℕ → Bool)) (elapsed : ℕ → ℕ) where
    -- The main loop, `round` rounds after its start.
    unfoldable pub drain_all :
        ℕ → ℕ → ImageDeserializer Store File → Result (ImageDeserializer Store File)
    drain_all zero round d = out_of_fuel
    drain_all (suc fuel) round d = do
      (next, d') ← get_next_readable_shard (poll round) d
      let stop = ensure d'.image_eof_seen no_shards >> ok d'
      let go = λ (shard : Shard).
          drain_shard (elapsed round) d' shard >>= λ d''. drain_all fuel (suc round) d''
      elim next [ none ↦ stop | some shard ↦ go shard ]

  -- `serde_json::from_slice(&metadata_bytes)?`
  unfoldable pub parse_metadata : Option (List Bytes) → Result (List Bytes)
  parse_metadata none = err json_failed
  parse_metadata (some names) = ok names

  -- The `FileData` branch of `process_small_file_marker`.
  unfoldable pub small_file_data :
      ImageDeserializer Store File
      → ℕ
      → Option (Bytes × File)
      → Result (ImageDeserializer Store File)
  small_file_data d size none = err unexpected_file_data
  small_file_data d size (some (name, file)) =
      let shard = d.small_file_shard in
      let read = λ (rest : Bytes). record shard {
        pipe = record shard.pipe { content = rest };
        bytes_read = shard.bytes_read + size;
      } in
      if name =?= metadata_file
      then (parse_metadata (sys.from_json (take size shard.pipe.content)) >>= λ names.
          ok (record d {
            metadata = some names;
            small_file_shard = read (drop size shard.pipe.content);
          }))
      else (write_current ops d.output shard.pipe.content size (some (name, file)) >>= λ z.
          ok (record d { output = z.0; small_file_shard = read z.1 }))

  -- The `FileEof` branch of `process_small_file_marker`.
  unfoldable pub small_file_eof :
      ImageDeserializer Store File → Option (Bytes × File) → Result (ImageDeserializer Store File)
  small_file_eof d none = err unexpected_file_eof
  small_file_eof d (some (name, file)) =
      if name =?= metadata_file
      then ok (record d { output = record d.output { current_img_file = none } })
      else (finish_current ops d.output (some (name, file)) >>= λ o. ok (record d { output = o }))

  unfoldable pub process_small_body :
      ImageDeserializer Store File → Option Body → Result (ImageDeserializer Store File)
  process_small_body d (some (filename name)) = do
    o ← select_img_file ops d.output name
    ok (record d { output = o })
  process_small_body d (some (file_data size)) = small_file_data d size d.output.current_img_file
  process_small_body d (some (file_eof true)) = small_file_eof d d.output.current_img_file
  process_small_body d (some (file_eof false)) = err malformed_marker
  process_small_body d (some (image_eof b)) = err malformed_marker
  process_small_body d none = err malformed_marker

  unfoldable pub process_small_file_marker :
      ImageDeserializer Store File → Marker → Result (ImageDeserializer Store File)
  process_small_file_marker d marker = do
    assert (marker.seq == d.small_file_seq) assertion
    process_small_body d marker.body

  -- Each round reads four bytes at least, so the length of the stream is enough fuel.
  unfoldable pub small_loop :
      ℕ → ImageDeserializer Store File → Result (ImageDeserializer Store File)
  small_loop zero d = out_of_fuel
  small_loop (suc fuel) d = do
    (found, rest) ← pb_read_next sys.codec d.small_file_shard.pipe.content
    let shard = d.small_file_shard
    let go = λ (z : Marker × ℕ).
        process_small_file_marker
          (record d {
            small_file_shard = record shard {
              pipe = record shard.pipe { content = rest };
              bytes_read = shard.bytes_read + z.1;
            };
          })
          z.0
        >>= λ d'. small_loop fuel (record d' { small_file_seq = d'.small_file_seq + 1 })
    elim found [ none ↦ ok d | some z ↦ go z ]

  -- `assert!(self.metadata.is_some())`, and the metadata taken out.
  unfoldable pub take_metadata :
      ImageDeserializer Store File
      → Option (List Bytes)
      → Result (List Bytes × ImageDeserializer Store File)
  take_metadata d none = panic assertion
  take_metadata d (some names) = ok (names, record d { metadata = none })

  unfoldable pub drain_small_file_shard :
      ImageDeserializer Store File → Result (List Bytes × ImageDeserializer Store File)
  drain_small_file_shard d = do
    d' ← small_loop (length d.small_file_shard.pipe.content + 1) d
    take_metadata d' d'.metadata
