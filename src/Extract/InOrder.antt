-- ===== src/Extract/InOrder.antt =====
-- The extraction from its start: shards that hold an image, and a main loop that replays it.
use cedana_image_streamer.Prelude.{
  ℕ, ◌+◌, ◌≡◌, ◌≤◌, ap, Bool, true, false, List, [], length, map, Result, ok, All, All-map, arith,
}
use cedana_image_streamer.System.{System, Laws}
use cedana_image_streamer.ImageStore.{ImageStore}
use cedana_image_streamer.Stream.{Piece, event, IsNumbered, Fits, occurs}
use cedana_image_streamer.Extract.{Shard, ImageDeserializer, drain_all}
use cedana_image_streamer.Extract.Sink.{Output}
use cedana_image_streamer.Extract.Replay.{IsSized, TakesExactly, replay}
use cedana_image_streamer.Extract.Invariant.{fds, IsQueued, total, Inv}
use cedana_image_streamer.Extract.Shards.{Polls}
use cedana_image_streamer.Extract.Reassembly.{Extracts, drain_all-Extracts}

-- The shards hold an image: its pieces, numbered from 0, each on one shard, in order on each shard.
pub record IsImage (sys : System) (shards : List Shard) (pieces : List Piece) : Type 0 where
  pub queued : All (IsQueued sys.codec pieces) shards
  pub numbered : IsNumbered 0 pieces
  pub fits : All (Fits sys.codec) pieces
  pub sized : All (λ p. IsSized p.marker.body p.payload) pieces
  pub homes : All (λ p. occurs p.home (fds shards) ≡ 1) pieces
  pub distinct : (j : ℕ) → occurs j (fds shards) ≤ 1

-- No shard but that of the small files has been read.
pub record IsFresh {Store File : Type 0} (d : ImageDeserializer Store File) : Type 0 where
  pub none_readable : d.readable_shards ≡ []
  pub none_pending : d.pending_markers ≡ []
  pub none_done : d.eof_shards ≡ []
  pub start : d.seq ≡ 0
  pub open_image : d.image_eof_seen ≡ false

module _ {Store File : Type 0} (sys : System) (d : ImageDeserializer Store File)
    (pieces : List Piece) (image : IsImage sys d.shards pieces) (fresh : IsFresh d) where
  total-fresh : (j : ℕ) → total d j ≡ occurs j (fds d.shards)
  total-fresh j = rw (fresh.none_readable, fresh.none_pending, fresh.none_done) (omega arith)

  fresh-Inv : Inv sys d pieces
  fresh-Inv = record {
    shards = image.queued;
    readable = rw fresh.none_readable tt;
    pending = rw fresh.none_pending tt;
    done = rw fresh.none_done tt;
    numbered = rw fresh.start image.numbered;
    fits = image.fits;
    sized = image.sized;
    present =
        All-map (λ p. occurs p.home (fds d.shards) ≡ 1) (λ p. total d p.home ≡ 1) pieces
          (λ p h. omega (arith, total-fresh p.home, h)) image.homes;
    distinct = λ j. omega (arith, total-fresh j, image.distinct j);
  }

-- Let the shards hold an image, and let its events, replayed one after the other in the order of
-- their sequence numbers, end the image with the output `o'`. Then the main loop, with a round for each
-- piece and each shard and one more, ends without an error, with that output and no shard left to read,
-- whatever poll() answers (so long as it reports a ready descriptor), and however the pieces are spread.
pub drain_all-in_order :
    {Store File : Type 0} (sys : System) (laws : Laws sys) (ops : ImageStore Store File)
    (law : TakesExactly ops) (d : ImageDeserializer Store File) (pieces : List Piece)
    (o' : Output Store File) (poll : ℕ → ℕ → Result (ℕ → Bool)) (elapsed : ℕ → ℕ)
    → ((round : ℕ) → Polls (poll round))
    → IsImage sys d.shards pieces
    → IsFresh d
    → replay ops (d.output, false) (map event pieces) ≡ ok (o', true)
    → Extracts o' (drain_all sys ops poll elapsed (length pieces + length d.shards + 1) 0 d)
drain_all-in_order sys laws ops law d pieces o' poll elapsed polls image fresh r =
    drain_all-Extracts sys laws ops law o' poll polls elapsed (length pieces + length d.shards + 1)
      0 d pieces
      (record { inv = fresh-Inv sys d pieces image fresh; replays = rw fresh.open_image r })
      (rw fresh.none_pending tt) (omega (arith, ap length fresh.none_readable))
