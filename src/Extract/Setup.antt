-- ===== src/Extract/Setup.antt =====
-- src/extract.rs: `drain_shards_into_img_store()` and the extracting half of `serve()`, which put the parts
-- together.
pub mod Served
use cedana_image_streamer.Prelude.{
  ℕ, ◌+◌, ◌*◌, ◌≡◌, refl, Bool, true, false, Bytes, Option, none, some, List, [], ◌∷◌, map, length,
  All, Result, ok, ◌>>=◌,
}
use cedana_image_streamer.System.{System, Laws}
use cedana_image_streamer.Util.{mb}
use cedana_image_streamer.UnixPipe.{WritePipe}
use cedana_image_streamer.Semaphore.{Semaphore}
use cedana_image_streamer.Semaphore
use cedana_image_streamer.ImageStore.{ImageStore}
use cedana_image_streamer.ImageStore.Overlay.{OverlayStore, add_overlay, overlay_store}
use cedana_image_streamer.ImageStore.Parallel.{Channel, FileSender, parallel_store, close_senders}
use cedana_image_streamer.ImageStore
use cedana_image_streamer.Stream.{Piece, event, serialize, IsNumbered, Fits}
use cedana_image_streamer.Extract.{
  ReadPipe, Shard, new_shard, ImageDeserializer, drain_small_file_shard, drain_all,
}
use cedana_image_streamer.Extract
use cedana_image_streamer.Extract.Sink.{Output}
use cedana_image_streamer.Extract.Replay.{IsSized, TakesExactly, replay}
use cedana_image_streamer.Extract.Shards.{Polls}
use cedana_image_streamer.Extract.InOrder.{IsImage, drain_all-in_order}
use cedana_image_streamer.Extract.Small.{note_all, drain_small_file_shard-note_all}

-- `for (filename, pipe) in ext_file_pipes { overlayed_img_store.add_overlay(filename, pipe); }`
unfoldable pub add_overlays :
    {Store : Type 0} → OverlayStore Store → List (Bytes × WritePipe) → OverlayStore Store
add_overlays s [] = s
add_overlays s ((filename, pipe) ∷ files) = add_overlays (add_overlay s filename pipe) files

unfoldable pub overlay_over :
    {Store : Type 0} → Store → List (Bytes × WritePipe) → OverlayStore Store
unfolding add_overlays
overlay_over store files =
    add_overlays (record { underlying_store = store; overlayed_files = []; closed = [] }) files

-- `None => sysinfo()?.ram_total() / MB, Some(limit) => limit`, in MB.
abbrev pub limit_or_all : ℕ → Option ℕ → ℕ
limit_or_all ram none = ram
limit_or_all ram (some limit) = limit

module _ (sys : System) (poll : ℕ → ℕ → Result (ℕ → Bool)) (elapsed : ℕ → ℕ) where
  -- The deserializer is made, reads the shard of the small files, and then the others: the list of the files
  -- and the deserializer at its end.
  unfoldable pub drain_shards :
      {Store File : Type 0}
      → ImageStore Store File
      → ℕ
      → Store
      → List Shard
      → Result (List Bytes × ImageDeserializer Store File)
  drain_shards ops fuel store shards = do
    d ← Extract.new store shards
    (metadata, d1) ← drain_small_file_shard sys ops d
    d2 ← drain_all sys ops poll elapsed fuel 0 d1
    ok (metadata, d2)

  -- Up to the statistics: the store that was filled, with the pipes of the external files.
  unfoldable pub drain_shards_into_img_store :
      {Store File : Type 0}
      → ImageStore Store File
      → ℕ
      → Store
      → List ReadPipe
      → List (Bytes × WritePipe)
      → Result (OverlayStore Store)
  unfolding drain_shards overlay_over
  drain_shards_into_img_store ops fuel img_store shard_pipes ext_file_pipes = do
    (metadata, d) ←
        drain_shards (overlay_store sys.kernel ops) fuel (overlay_over img_store ext_file_pipes)
          (map new_shard shard_pipes)
    ok d.output.img_store

  -- `serve()`, without the thread that it spawns: the list of the files that the thread gets, and the
  -- channels at the end.
  unfoldable pub serve_extraction :
      ℕ
      → Channel
      → Channel
      → ℕ
      → Option ℕ
      → List ℕ
      → List ReadPipe
      → List (Bytes × WritePipe)
      → Result (List Bytes × FileSender)
  unfolding drain_shards overlay_over Semaphore.new ImageStore.Parallel.new
  serve_extraction fuel sender small_file_sender ram memory_limit releases shard_pipes
        ext_file_pipes =
      do
        let semaphore = Semaphore.new (limit_or_all ram memory_limit * mb)
        let file_sender = ImageStore.Parallel.new sender small_file_sender semaphore releases
        (metadata, d) ←
            drain_shards (overlay_store sys.kernel (parallel_store sys.is_match)) fuel
              (overlay_over file_sender ext_file_pipes) (map new_shard shard_pipes)
        ok (metadata, close_senders d.output.img_store.underlying_store)

abbrev pub nothing_open : {Store File : Type 0} → Store → Output Store File
nothing_open store = record { img_store = store; img_files = []; current_img_file = none }

-- Let the first shard hold pieces of small files, numbered from 0, whose events succeed from an empty output
-- and find the list of the files, and let the other shards hold an image whose events, replayed in the
-- order of their sequence numbers from there, end it. Then the extraction, with a round for each piece and
-- each shard and one more, ends without an error, with the list of the files and the output of that replay,
-- however the pieces are spread, where every poll() succeeds with a descriptor that is ready and the store
-- takes exactly the bytes that it is told to take (`TakesExactly`).
pub drain_shards-in_order :
    {Store File : Type 0} (sys : System) (laws : Laws sys) (ops : ImageStore Store File)
    (law : TakesExactly ops) (poll : ℕ → ℕ → Result (ℕ → Bool)) (elapsed : ℕ → ℕ) (store : Store)
    (first second : Shard) (others : List Shard) (small big : List Piece) (names : List Bytes)
    (o o' : Output Store File)
    → ((round : ℕ) → Polls (poll round))
    → first.pipe.content ≡ serialize sys.codec small
    → IsNumbered 0 small
    → All (Fits sys.codec) small
    → All (λ p. IsSized p.marker.body p.payload) small
    → note_all sys ops (none, nothing_open store) (map event small) ≡ ok (some names, o)
    → IsImage sys (second ∷ others) big
    → replay ops (o, false) (map event big) ≡ ok (o', true)
    → (d : ImageDeserializer Store File) × (drain_shards sys poll elapsed ops
          (length big + length (second ∷ others) + 1)
          store
          (first ∷ second ∷ others)
        ≡ ok (names, d))
      × (d.output ≡ o')
unfolding drain_shards Extract.new
drain_shards-in_order sys laws ops law poll elapsed store first second others small big names o o'
      polls c n fits sized e image r =
    let start : ImageDeserializer _ _ = record {
      small_file_shard = first;
      small_file_seq = 0;
      metadata = none;
      shards = second ∷ others;
      readable_shards = [];
      pending_markers = [];
      seq = 0;
      output = nothing_open store;
      image_eof_seen = false;
      eof_shards = [];
    } in
    let (shard, left, s) =
      drain_small_file_shard-note_all sys ops laws law start small names o c n fits sized e in
    let d1 : ImageDeserializer _ _ = record start {
      small_file_shard = shard;
      small_file_seq = 0 + length small;
      metadata = none;
      output = o;
    } in
    let (d, all, out, seen, no_shards, no_readable) =
      drain_all-in_order sys laws ops law d1 big o' poll elapsed polls image
        (record {
          none_readable = refl;
          none_pending = refl;
          none_done = refl;
          start = refl;
          open_image = refl;
        })
        r in
    (d, rw (s, all) refl, out)
