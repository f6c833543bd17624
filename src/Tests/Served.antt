-- ===== src/Tests/Served.antt =====
-- The extraction of serve() on an image of one file and the list of the files, where a pipe of its own is given
-- for that file.
use cedana_image_streamer.Prelude.{
  ℕ, ◌*◌, ◌≡◌, ◌=?=◌, refl, true, false, codes, none, some, [], ◌∷◌, map, ok, arith,
}
use cedana_image_streamer.Prelude.Map
use cedana_image_streamer.Util.{mb}
use cedana_image_streamer.UnixPipe.{write_all, splice_all, splice_loop}
use cedana_image_streamer.Semaphore
use cedana_image_streamer.ImageStore
use cedana_image_streamer.ImageStore.Overlay.{OverlayStore, OverlayFile, overlay_store}
use cedana_image_streamer.ImageStore.Overlay
use cedana_image_streamer.ImageStore.Parallel.{
  Channel, FileSender, File, parallel_store, close_senders,
}
use cedana_image_streamer.Stream.{event, serialize, route}
use cedana_image_streamer.Extract.{ReadPipe, new_shard, parse_metadata}
use cedana_image_streamer.Extract.Sink.{
  Output, select_img_file, put_back, open_or_create, write_current, finish_current,
}
use cedana_image_streamer.Extract.Replay.{replay, deliver, deliver_body}
use cedana_image_streamer.Extract.Small.{note, note_all}
use cedana_image_streamer.Extract.Setup.{overlay_over, add_overlays, serve_extraction, nothing_open}
use cedana_image_streamer.Extract.Setup.Served.{Holds, serve_extraction-in_order}
use cedana_image_streamer.Tests.Fixtures.{sys, sys-Laws, codec, write_pipe}
use cedana_image_streamer.Tests.Session.{pieces, small_pieces, last_ready, last_ready-Polls}

abbrev read_pipe : ℕ → ReadPipe
read_pipe fd = record { fd = fd; content = serialize codec (route fd pieces) }

abbrev small_pipe : ReadPipe
small_pipe = record { fd = 6; content = serialize codec small_pieces }

abbrev channel : Channel
channel = record { messages = []; accepts = λ n. true }

abbrev sender : FileSender
sender = ImageStore.Parallel.new channel channel (Semaphore.new (1 * mb)) []

abbrev start : OverlayStore FileSender
start = overlay_over sender ((codes "pages-1", write_pipe 9) ∷ [])

-- The channel of the small files is closed, since no file is small by the `is_match` of the tests.
abbrev sender' : FileSender
sender' = record sender { has_small_file_sender = false }

abbrev at_end : Output (OverlayStore FileSender) (OverlayFile File)
at_end = record {
  img_store = record {
    underlying_store = sender';
    overlayed_files = [];
    closed = (codes "pages-1", record (write_pipe 9) { written = 5 ∷ 6 ∷ [] }) ∷ [];
  };
  img_files = [];
  current_img_file = none;
}

abbrev nothing : Output (OverlayStore FileSender) (OverlayFile File)
nothing = nothing_open start

abbrev after_small : Output (OverlayStore FileSender) (OverlayFile File)
after_small = nothing_open (overlay_over sender' ((codes "pages-1", write_pipe 9) ∷ []))

noted :
    note_all sys
      (overlay_store sys.kernel (parallel_store sys.is_match))
      (none, nothing)
      (map event small_pieces)
    ≡ ok (some ((8 ∷ 9 ∷ []) ∷ []), after_small)
unfolding note_all note select_img_file put_back open_or_create Map.get ◌=?=◌ parse_metadata
    Overlay.create overlay_over Overlay.add_overlay Map.insert
    cedana_image_streamer.ImageStore.Parallel.create cedana_image_streamer.Util.Files.is_small_file
    cedana_image_streamer.ImageStore.Parallel.new Overlay.create_over add_overlays Map.without
noted = refl

replayed :
    replay
      (overlay_store sys.kernel (parallel_store sys.is_match))
      (after_small, false)
      (map event pieces)
    ≡ ok (at_end, true)
unfolding replay deliver deliver_body select_img_file open_or_create Map.get put_back Overlay.create
    overlay_over Overlay.add_overlay Map.insert ◌=?=◌ write_current Overlay.write_all_from_pipe
    splice_all write_all finish_current Overlay.insert add_overlays Overlay.create_over Map.without
    splice_loop
replayed = refl

pipes-Holds :
    Holds sys
      (overlay_store sys.kernel (parallel_store sys.is_match))
      start
      small_pipe
      (read_pipe 7)
      (read_pipe 8 ∷ [])
      small_pieces
      pieces
      ((8 ∷ 9 ∷ []) ∷ [])
      after_small
      at_end
unfolding route new_shard
pipes-Holds = record {
  content = refl;
  numbered = (refl, (refl, (refl, tt)));
  fits = omega arith;
  sized = (refl, (refl, (refl, tt)));
  noted = noted;
  image = record {
    queued = (refl, (refl, tt));
    numbered = (refl, (refl, (refl, (refl, tt))));
    fits = omega arith;
    sized = (refl, (refl, (refl, (refl, tt))));
    homes = (refl, (refl, (refl, (refl, tt))));
    distinct = λ j. ground arith;
  };
  replayed = replayed;
}

serve_extraction-in_order_example :
    serve_extraction sys last_ready
      (λ round. round)
      7
      channel
      channel
      5
      (some 1)
      []
      (small_pipe ∷ read_pipe 7 ∷ read_pipe 8 ∷ [])
      ((codes "pages-1", write_pipe 9) ∷ [])
    ≡ ok ((8 ∷ 9 ∷ []) ∷ [], close_senders sender)
serve_extraction-in_order_example =
    serve_extraction-in_order sys sys-Laws last_ready (λ round. round) last_ready-Polls small_pipe
      (read_pipe 7) (read_pipe 8 ∷ []) ((codes "pages-1", write_pipe 9) ∷ []) small_pieces pieces
      ((8 ∷ 9 ∷ []) ∷ []) channel channel 5 (some 1) [] after_small at_end pipes-Holds
