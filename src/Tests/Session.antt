-- ===== src/Tests/Session.antt =====
-- Instances of the theorems on the capture and the extraction.
use cedana_image_streamer.Prelude.{
  ℕ, ◌+◌, ◌-◌, ◌≡◌, ◌=?=◌, refl, ltb, Bool, true, false, Bytes, codes, none, some, List, [], ◌∷◌,
  map, Result, ok, arith,
}
use cedana_image_streamer.Prelude.Map
use cedana_image_streamer.Prelude.Map.{Map}
use cedana_image_streamer.Image.{filename, file_data, file_eof, image_eof}
use cedana_image_streamer.Stream.{Piece, event, serialize, route}
use cedana_image_streamer.Extract.{
  Shard, ImageDeserializer, parse_metadata, drain_all, drain_small_file_shard,
}
use cedana_image_streamer.Extract.Sink.{
  Output, select_img_file, put_back, open_or_create, write_current, finish_current,
}
use cedana_image_streamer.Extract.Replay.{replay, deliver, deliver_body}
use cedana_image_streamer.Extract.Shards.{Polls}
use cedana_image_streamer.Extract.Reassembly.{Extracts}
use cedana_image_streamer.Extract.InOrder.{IsImage, IsFresh, drain_all-in_order}
use cedana_image_streamer.Util.Files.{metadata_file}
use cedana_image_streamer.Extract.Small.{note, note_all, drain_small_file_shard-note_all}
use cedana_image_streamer.Extract.Setup.{drain_shards, drain_shards-in_order}
use cedana_image_streamer.Tests.Fixtures.{sys, sys-Laws, codec, store_ops, store_ops-TakesExactly}

-- A file of two bytes whose pieces are spread over the shards 7 and 8.
abbrev pub pieces : List Piece
pieces =
    record {
      home = 7;
      marker = record { seq = 0; body = some (filename (codes "pages-1")) };
      payload = [];
    }
    ∷ record {
      home = 8;
      marker = record { seq = 1; body = some (file_data 2) };
      payload = 5 ∷ 6 ∷ [];
    }
    ∷ record { home = 7; marker = record { seq = 2; body = some (file_eof true) }; payload = [] }
    ∷ record { home = 8; marker = record { seq = 3; body = some (image_eof true) }; payload = [] }
    ∷ []

abbrev shard : ℕ → Shard
shard fd = record {
  pipe = record { fd = fd; content = serialize codec (route fd pieces) };
  transfer_duration_millis = 0;
  bytes_read = 0;
}

abbrev nothing : Output (Map Bytes) Bytes
nothing = record { img_store = []; img_files = []; current_img_file = none }

abbrev ready_to_drain : ImageDeserializer (Map Bytes) Bytes
ready_to_drain = record {
  small_file_shard = shard 6;
  small_file_seq = 0;
  metadata = none;
  shards = shard 7 ∷ shard 8 ∷ [];
  readable_shards = [];
  pending_markers = [];
  seq = 0;
  output = nothing;
  image_eof_seen = false;
  eof_shards = [];
}

abbrev one_file : Output (Map Bytes) Bytes
one_file = record {
  img_store = (codes "pages-1", 5 ∷ 6 ∷ []) ∷ [];
  img_files = [];
  current_img_file = none;
}

-- poll() reports the last descriptor.
abbrev pub last_ready : ℕ → ℕ → Result (ℕ → Bool)
last_ready round n = ok (λ i. ltb n (i + 2))

pub last_ready-Polls : (round : ℕ) → Polls (last_ready round)
last_ready-Polls round n h = ((λ i. ltb n (i + 2)), n - 1, refl, omega arith, ground arith)

replay-pieces : replay store_ops (nothing, false) (map event pieces) ≡ ok (one_file, true)
unfolding replay deliver deliver_body select_img_file put_back open_or_create write_current
    finish_current Map.get Map.insert Map.without
replay-pieces = refl

pieces-IsImage : IsImage sys ready_to_drain.shards pieces
unfolding route
pieces-IsImage = record {
  queued = (refl, (refl, tt));
  numbered = (refl, (refl, (refl, (refl, tt))));
  fits = omega arith;
  sized = (refl, (refl, (refl, (refl, tt))));
  homes = (refl, (refl, (refl, (refl, tt))));
  distinct = λ j. ground arith;
}

ready_to_drain-IsFresh : IsFresh ready_to_drain
ready_to_drain-IsFresh = record {
  none_readable = refl;
  none_pending = refl;
  none_done = refl;
  start = refl;
  open_image = refl;
}

drain_all-in_order_example :
    Extracts one_file (drain_all sys store_ops last_ready (λ round. round) 7 0 ready_to_drain)
drain_all-in_order_example =
    drain_all-in_order sys sys-Laws store_ops store_ops-TakesExactly ready_to_drain pieces one_file
      last_ready (λ round. round) last_ready-Polls pieces-IsImage ready_to_drain-IsFresh
      replay-pieces

-- The list of the files, of two bytes.
abbrev pub small_pieces : List Piece
small_pieces =
    record {
      home = 6;
      marker = record { seq = 0; body = some (filename metadata_file) };
      payload = [];
    }
    ∷ record {
      home = 6;
      marker = record { seq = 1; body = some (file_data 2) };
      payload = 8 ∷ 9 ∷ [];
    }
    ∷ record { home = 6; marker = record { seq = 2; body = some (file_eof true) }; payload = [] }
    ∷ []

abbrev first : Shard
first = record {
  pipe = record { fd = 6; content = serialize codec small_pieces };
  transfer_duration_millis = 0;
  bytes_read = 0;
}

noted :
    note_all sys store_ops (none, nothing) (map event small_pieces)
    ≡ ok (some ((8 ∷ 9 ∷ []) ∷ []), nothing)
unfolding note_all note select_img_file put_back open_or_create Map.get ◌=?=◌ parse_metadata
noted = refl

drain_small_file_shard-note_all_example :
    (shard : Shard) × (shard.pipe.content ≡ [])
    × (drain_small_file_shard sys store_ops (record ready_to_drain { small_file_shard = first })
        ≡ ok (
          (8 ∷ 9 ∷ []) ∷ [],
          record ready_to_drain {
            small_file_shard = shard;
            small_file_seq = 3;
            metadata = none;
            output = nothing;
          },
        ))
drain_small_file_shard-note_all_example =
    drain_small_file_shard-note_all sys store_ops sys-Laws store_ops-TakesExactly
      (record ready_to_drain { small_file_shard = first }) small_pieces ((8 ∷ 9 ∷ []) ∷ []) nothing
      refl (refl, (refl, (refl, tt))) (omega arith) (refl, (refl, (refl, tt))) noted

drain_shards-in_order_example :
    (d : ImageDeserializer (Map Bytes) Bytes) × (drain_shards sys last_ready
        (λ round. round)
        store_ops
        7
        []
        (first ∷ shard 7 ∷ shard 8 ∷ [])
      ≡ ok ((8 ∷ 9 ∷ []) ∷ [], d))
    × (d.output ≡ one_file)
drain_shards-in_order_example =
    drain_shards-in_order sys sys-Laws store_ops store_ops-TakesExactly last_ready (λ round. round)
      [] first (shard 7) (shard 8 ∷ []) small_pieces pieces ((8 ∷ 9 ∷ []) ∷ []) nothing one_file
      last_ready-Polls refl (refl, (refl, (refl, tt))) (omega arith) (refl, (refl, (refl, tt)))
      noted pieces-IsImage replay-pieces
