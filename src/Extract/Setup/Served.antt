-- ===== src/Extract/Setup/Served.antt =====
-- src/extract.rs: the extraction of `serve()`, and that of `extract()`, over the stores that they use.
use cedana_image_streamer.Prelude.{
  ℕ, ◌+◌, ◌*◌, ◌≡◌, Bool, true, false, Bytes, Option, none, some, List, ◌∷◌, map, length, All,
  Result, ok, ap,
}
use cedana_image_streamer.System.{System, Laws}
use cedana_image_streamer.Util.{mb}
use cedana_image_streamer.UnixPipe.{WritePipe}
use cedana_image_streamer.Semaphore
use cedana_image_streamer.ImageStore.{ImageStore}
use cedana_image_streamer.ImageStore.Overlay.{OverlayStore, OverlayFile, overlay_store}
use cedana_image_streamer.ImageStore.Overlay.Exact.{overlay_store-TakesExactly}
use cedana_image_streamer.ImageStore.Parallel.{
  Channel, FileSender, File, parallel_store, close_senders,
}
use cedana_image_streamer.ImageStore
use cedana_image_streamer.ImageStore.Parallel.Exact.{parallel_store-TakesExactly}
use cedana_image_streamer.Stream.{Piece, event, serialize, IsNumbered, Fits}
use cedana_image_streamer.Extract.{ReadPipe, new_shard}
use cedana_image_streamer.Extract.Sink.{Output}
use cedana_image_streamer.Extract.Replay.{IsSized, TakesExactly, replay}
use cedana_image_streamer.Extract.Shards.{Polls}
use cedana_image_streamer.Extract.InOrder.{IsImage}
use cedana_image_streamer.Extract.Small.{note_all}
use cedana_image_streamer.Extract.Setup.{
  overlay_over, limit_or_all, drain_shards_into_img_store, serve_extraction, nothing_open,
  drain_shards-in_order,
}

-- What the pipes hold: the first one pieces of small files, numbered from 0, whose events succeed from an
-- output with nothing open and find the list of the files; the others an image whose events, replayed in the
-- order of their sequence numbers from there, end it.
pub record Holds {Store File : Type 0} (sys : System) (ops : ImageStore Store File) (store : Store)
    (first second : ReadPipe) (others : List ReadPipe) (small big : List Piece) (names : List Bytes)
    (o o' : Output Store File) : Type 0 where
  pub content : first.content ≡ serialize sys.codec small
  pub numbered : IsNumbered 0 small
  pub fits : All (Fits sys.codec) small
  pub sized : All (λ p. IsSized p.marker.body p.payload) small
  pub noted : note_all sys ops (none, nothing_open store) (map event small) ≡ ok (some names, o)
  pub image : IsImage sys (map new_shard (second ∷ others)) big
  pub replayed : replay ops (o, false) (map event big) ≡ ok (o', true)

-- The rounds that are enough: one for each piece and each shard, and one more.
abbrev pub rounds : ReadPipe → List ReadPipe → List Piece → ℕ
rounds second others big = length big + length (map new_shard (second ∷ others)) + 1

module _ (sys : System) (laws : Laws sys) (poll : ℕ → ℕ → Result (ℕ → Bool)) (elapsed : ℕ → ℕ)
    (polls : (round : ℕ) → Polls (poll round)) (first second : ReadPipe) (others : List ReadPipe)
    (ext_file_pipes : List (Bytes × WritePipe)) (small big : List Piece) (names : List Bytes) where
  -- Let every poll() succeed with a descriptor that is ready, let the store take exactly the bytes that it
  -- is told to take, and let the pipes hold an image. Then the extraction into that store, with pipes of
  -- their own for some files, ends without an error, with what the replay of the pieces in their order
  -- puts in the store.
  pub drain_shards_into_img_store-in_order :
      {Store File : Type 0} (ops : ImageStore Store File) (law : TakesExactly ops)
      (img_store : Store) (o o' : Output (OverlayStore Store) (OverlayFile File))
      → Holds sys
          (overlay_store sys.kernel ops)
          (overlay_over img_store ext_file_pipes)
          first
          second
          others
          small
          big
          names
          o
          o'
      → drain_shards_into_img_store sys poll elapsed ops
          (rounds second others big)
          img_store
          (first ∷ second ∷ others)
          ext_file_pipes
        ≡ ok o'.img_store
  unfolding drain_shards_into_img_store new_shard
  drain_shards_into_img_store-in_order ops law img_store o o' h =
      let (d, all, out) =
        drain_shards-in_order sys laws (overlay_store sys.kernel ops)
          (overlay_store-TakesExactly sys.kernel ops laws.progresses law) poll elapsed
          (overlay_over img_store ext_file_pipes) (new_shard first) (new_shard second)
          (map new_shard others) small big names o o' polls h.content h.numbered h.fits h.sized
          h.noted h.image h.replayed in
      rw all (ap (λ (x : Output _ _). ok x.img_store) out)

  -- Let every poll() succeed with a descriptor that is ready, and let the pipes hold an image. Then the
  -- extraction of serve(), over the store that sends the files to the serving thread, and with pipes of their
  -- own for some files, ends without an error: with the list of the files, and with the channels as the replay
  -- of the pieces in their order leaves them, closed.
  pub serve_extraction-in_order :
      (sender small_file_sender : Channel) (ram : ℕ) (memory_limit : Option ℕ) (releases : List ℕ)
      (o o' : Output (OverlayStore FileSender) (OverlayFile File))
      → Holds sys
          (overlay_store sys.kernel (parallel_store sys.is_match))
          (overlay_over
            (ImageStore.Parallel.new sender small_file_sender
              (Semaphore.new (limit_or_all ram memory_limit * mb))
              releases)
            ext_file_pipes)
          first
          second
          others
          small
          big
          names
          o
          o'
      → serve_extraction sys poll elapsed
          (rounds second others big)
          sender
          small_file_sender
          ram
          memory_limit
          releases
          (first ∷ second ∷ others)
          ext_file_pipes
        ≡ ok (names, close_senders o'.img_store.underlying_store)
  unfolding serve_extraction new_shard
  serve_extraction-in_order sender small_file_sender ram memory_limit releases o o' h =
      let (d, all, out) =
        drain_shards-in_order sys laws (overlay_store sys.kernel (parallel_store sys.is_match))
          (overlay_store-TakesExactly sys.kernel (parallel_store sys.is_match) laws.progresses
            (parallel_store-TakesExactly sys.is_match))
          poll elapsed
          (overlay_over
            (ImageStore.Parallel.new sender small_file_sender
              (Semaphore.new (limit_or_all ram memory_limit * mb)) releases)
            ext_file_pipes)
          (new_shard first) (new_shard second) (map new_shard others) small big names o o' polls
          h.content h.numbered h.fits h.sized h.noted h.image h.replayed in
      rw all (
        ap
          (λ (x : Output (OverlayStore FileSender) _).
            ok (names, close_senders x.img_store.underlying_store))
          out)
