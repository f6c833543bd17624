-- ===== src/Tests/Whole.antt =====
-- A capture of one file from one client, from its start to its end.
use cedana_image_streamer.Prelude.{
  ◌≡◌, refl, ◌=?=◌, ◌++◌, ◌-ℤ◌, true, false, codes, none, some, List, [], ◌∷◌, length, pop, Result,
  ok, err, panic, out_of_fuel, arith,
}
use cedana_image_streamer.Heap.{peek}
use cedana_image_streamer.Image.{image_eof}
use cedana_image_streamer.Util.{pb_read_next, read_bytes_next, pb_write}
use cedana_image_streamer.Util.Files.{is_small_file, starts_with, contains}
use cedana_image_streamer.Stream.{Piece, event}
use cedana_image_streamer.UnixPipe.{
  WritePipe, done, write_all, fionread, splice_all, set_capacities, increase_capacity,
}
use cedana_image_streamer.Poller.{Wait, ready, poll, add, remove}
use cedana_image_streamer.Poller.Entries.{find, without, put}
use cedana_image_streamer.Poller
use cedana_image_streamer.Connection.{Connection, read_next_file_request, recv_pipe}
use cedana_image_streamer.Capture.{
  ImageSerializer, shard_less, drain_img_file, write_image_eof, new_shard,
}
use cedana_image_streamer.Capture
use cedana_image_streamer.Capture.Session.{World, Session, capture}
use cedana_image_streamer.Capture.Writes.{pipes}
use cedana_image_streamer.Extract.{Shard}
use cedana_image_streamer.Extract.InOrder.{IsImage}
use cedana_image_streamer.Transfer.{Receives, capture-IsImage}
use cedana_image_streamer.Tests.Fixtures.{sys, write_pipe}
use cedana_image_streamer.Tests.Messages.{messages}

-- The client asks for a pipe for its file, and then stops the listener.
abbrev conn : Connection
conn = record {
  incoming = 7 ∷ 0 ∷ 0 ∷ 0 ∷ codes "pages-1" ++ 0 ∷ 13 ∷ 0 ∷ 0 ∷ 0 ∷ codes "stop-listener";
  passed_fds = some 11 ∷ [];
  outgoing = [];
  stays = λ n. true;
}

abbrev world : World
world = record {
  messages = messages;
  vacant = λ keys. length keys;
  open_pipe = λ fd. some ((1 ∷ 2 ∷ 3 ∷ []) ∷ []);
  has_fionread = λ fd. true;
}

-- The listener is 0, the client 1, the file 2. The file is drained, and drained again at its end.
abbrev waits : List Wait
waits =
    ready (0 ∷ [])
    ∷ ready (1 ∷ [])
    ∷ ready (2 ∷ [])
    ∷ ready (2 ∷ [])
    ∷ ready (1 ∷ [])
    ∷ ready (1 ∷ [])
    ∷ []

abbrev run : Result Session
run =
    capture world sys (λ fd capacity. done) 3 ((10, conn) ∷ [])
      (write_pipe 6 ∷ write_pipe 7 ∷ write_pipe 8 ∷ []) [] 9 waits

abbrev nowhere : Session
nowhere = record {
  poller = Poller.new;
  listener_key = 0;
  img_serializer = record {
    small_file_shard = new_shard (write_pipe 6);
    small_file_seq = 0;
    shards = [];
    shard_pipe_capacity = 0;
    seq = 0;
    current_filename = none;
    current_file_size = 0;
    metadata = [];
  };
  started = false;
  progress = [];
}

abbrev session : Result Session → Session
session (ok s) = s
session (err e) = nowhere
session (panic p) = nowhere
session out_of_fuel = nowhere

abbrev final : Session
final = session run

run_lem : run ≡ ok final
unfolding capture increase_capacity set_capacities add remove without Capture.new poll pop find put
    read_next_file_request pb_read_next read_bytes_next ◌=?=◌ recv_pipe drain_img_file is_small_file
    starts_with contains new_shard fionread shard_less peek write_image_eof splice_all write_all
    pb_write ◌-ℤ◌ Poller.update
run_lem = refl

-- The shards as the extraction gets them.
abbrev received : List WritePipe → List Shard
received [] = []
received (p ∷ ps) =
    record {
      pipe = record { fd = p.fd; content = p.written };
      transfer_duration_millis = 0;
      bytes_read = 0;
    }
    ∷ received ps

received-Receives : (ps : List WritePipe) → Receives ps (received ps)
received-Receives [] = tt
received-Receives (p ∷ ps) = (refl, refl, received-Receives ps)

capture-IsImage_example :
    (pieces : List Piece) × (last : Piece) × (event last ≡ (some (image_eof true), []))
    × IsImage sys (received (pipes final.img_serializer.shards)) (pieces ++ last ∷ [])
capture-IsImage_example =
    capture-IsImage sys world (λ fd capacity. done) 3 ((10, conn) ∷ [])
      (write_pipe 6 ∷ write_pipe 7 ∷ write_pipe 8 ∷ []) [] 9 waits final
      (received (pipes final.img_serializer.shards)) (refl, (refl, (refl, tt))) (λ j. ground arith)
      run_lem (received-Receives (pipes final.img_serializer.shards))
