-- ===== src/Tests/Serving.antt =====
-- Instances of the theorems on serving an image from memory.
use cedana_image_streamer.Prelude.{
  ℕ, ◌≡◌, refl, ◌≤◌, ◌++◌, ◌-◌, Bool, true, false, Bytes, codes, ◌=?=◌, Option, none, some, List,
  [], ◌∷◌, map, take, drop, Result, ok, err, out_of_fuel, requested_twice, arith,
}
use cedana_image_streamer.Prelude.Map
use cedana_image_streamer.MmapBuf.{MmapBuf, deref}
use cedana_image_streamer.Semaphore.{Semaphore}
use cedana_image_streamer.Semaphore
use cedana_image_streamer.UnixPipe.{write_all, vmsplice_all}
use cedana_image_streamer.UnixPipe.Splice.{append_to}
use cedana_image_streamer.Util.{read_bytes_next, pb_read_next}
use cedana_image_streamer.Util.Files.{is_small_file, starts_with, contains}
use cedana_image_streamer.Extract.Replay.{TakesExactly}
use cedana_image_streamer.Poller.{Poller}
use cedana_image_streamer.Poller.Entries.{find}
use cedana_image_streamer.Connection.{Connection, read_next_file_request}
use cedana_image_streamer.ImageStore.Parallel.{
  eof, content, Channel, FileSender, new_file, write_all_from_pipe, parallel_store,
}
use cedana_image_streamer.ImageStore.Parallel.Sends.{charge, with_sent, content_messages, HasBudget}
use cedana_image_streamer.ImageStore.Parallel.Exact.{parallel_store-TakesExactly}
use cedana_image_streamer.Serve.{send_over_chunks}
use cedana_image_streamer.Serve.Chunks.{write-send_over_chunks}
use cedana_image_streamer.Serve.State.{World, Serving, PollType, client, flush}
use cedana_image_streamer.Serve.Loop.{is_in, react, serve_loop}
use cedana_image_streamer.Serve.Loop.{serve_file}
use cedana_image_streamer.Serve.Loop.Answers.{IsAnswered, serve_file-IsAnswered}
use cedana_image_streamer.Serve.Loop.Once.{react_second_request}
use cedana_image_streamer.Serve.Loop.Hangup.{IsHung, always_ready, serve_loop-never_ends}
use cedana_image_streamer.Tests.Fixtures.{sys, sys-Laws, write_pipe}
use cedana_image_streamer.Tests.Messages.{messages, reply-Decodes}

abbrev channel : Channel
channel = record { messages = []; accepts = λ n. true }

abbrev budget : Semaphore
budget = record { count = 10; start_val = 10 }

abbrev sender : FileSender
sender = record {
  has_sender = true;
  has_small_file_sender = false;
  large_channel = channel;
  small_channel = channel;
  semaphore = budget;
  releases = [];
}

abbrev pages : Bytes
pages = codes "pages-1"

pages_large : is_small_file sys.is_match pages ≡ false
unfolding is_small_file starts_with contains ◌=?=◌
pages_large = refl

pages_budget : HasBudget (is_small_file sys.is_match pages) 3 sender
pages_budget = rw pages_large (omega arith)

-- Three bytes in chunks of two.
write-send_over_chunks_example :
    (chunks : List MmapBuf) × (s' : FileSender) × (s'
      ≡ charge
          (is_small_file sys.is_match pages)
          3
          (with_sent (is_small_file sys.is_match pages) (content_messages pages chunks) sender))
    × (write_all_from_pipe 2 sender (new_file sys.is_match pages) (1 ∷ 2 ∷ 3 ∷ 4 ∷ []) 3
        ≡ ok (s', new_file sys.is_match pages, 4 ∷ []))
    × (send_over_chunks sys pages (map content chunks ++ eof ∷ []) (write_pipe 9) s'.semaphore
        ≡ ok (true, append_to (write_pipe 9) (1 ∷ 2 ∷ 3 ∷ []), budget))
write-send_over_chunks_example =
    write-send_over_chunks sys sys-Laws pages 2 sender (1 ∷ 2 ∷ 3 ∷ 4 ∷ []) 3 (write_pipe 9)
      (omega arith) ((λ n. refl), (λ n. refl)) (omega arith) pages_budget (omega arith) (λ n. refl)

parallel_store-TakesExactly_example : TakesExactly (parallel_store sys.is_match)
parallel_store-TakesExactly_example = parallel_store-TakesExactly sys.is_match

abbrev world : World
world = record {
  messages = messages;
  vacant = λ keys. 2;
  open_pipe = λ fd. none;
  regex = λ pattern. none;
  file_list = pages ∷ [];
}

-- A client that asks for the file, which another one is being sent.
abbrev asking : Connection
asking = record {
  incoming = 7 ∷ 0 ∷ 0 ∷ 0 ∷ pages;
  passed_fds = [];
  outgoing = [];
  stays = λ n. true;
}

abbrev asked : Connection
asked = record asking { incoming = [] }

abbrev clients : Poller PollType
clients = record {
  interest = (5, 1) ∷ [];
  slab = (1, (5, client asking)) ∷ [];
  pending_events = [];
}

abbrev chunk : MmapBuf
chunk = record { memory = λ i. i; len = 2; capacity = 2 }

abbrev serving : Serving
serving = record {
  poller = clients;
  listener_key = 0;
  store = (pages, content chunk ∷ []) ∷ [];
  filenames_of_sent_files = pages ∷ [];
  receiver_eof = false;
  open_pipes = (pages, write_pipe 9) ∷ [];
  closed = [];
  stopped = false;
  semaphore = budget;
}

abbrev flushed : Serving
flushed = record serving {
  store = [];
  open_pipes = (pages, append_to (write_pipe 9) (0 ∷ 1 ∷ [])) ∷ [];
}

pages_known : is_in pages (pages ∷ []) ≡ true
unfolding is_in ◌=?=◌
pages_known = refl

flushed_lem : flush sys serving ≡ ok flushed
unfolding flush send_over_chunks vmsplice_all write_all Map.get Map.without ◌=?=◌ deref
    is_small_file starts_with contains Semaphore.release
flushed_lem = refl

asked_lem : read_next_file_request messages asking ≡ ok (some pages, asked)
unfolding read_next_file_request pb_read_next read_bytes_next
asked_lem = refl

react_second_request_example :
    react world sys (some (1, client asking)) (record flushed { poller = clients })
    ≡ err requested_twice
react_second_request_example =
    react_second_request world sys serving flushed pages 1 asking asked clients (pages_known, tt)
      flushed_lem pages_known pages_known
      (
        (λ e. cc),
        (unfold ◌=?=◌ in refl),
        (unfold cedana_image_streamer.Serve.Loop.has_star in refl),
      )
      asked_lem

abbrev hung_up : Serving
hung_up = record serving {
  poller = record clients { slab = (1, (5, client asked)) ∷ [] };
  open_pipes = [];
  store = [];
  receiver_eof = true;
  stopped = true;
}

hung_up-IsHung : IsHung 1 5 hung_up
unfolding find
hung_up-IsHung = record {
  conn = asked;
  closed = refl;
  polled = refl;
  no_events = refl;
  no_pipes = refl;
  no_more = refl;
}

serve_loop-never_ends_example : serve_loop world sys 4 (always_ready 1 4) [] hung_up ≡ out_of_fuel
serve_loop-never_ends_example = serve_loop-never_ends world sys 1 5 4 [] hung_up hung_up-IsHung

-- Pipes are opened here.
abbrev opening : World
opening = record world { open_pipe = λ fd. some (write_pipe fd) }

-- What follows the request: the byte that brings the descriptor 4.
abbrev passing : Connection
passing = record {
  incoming = 0 ∷ [];
  passed_fds = some 4 ∷ [];
  outgoing = 6 ∷ [];
  stays = λ n. true;
}

abbrev passed : Connection
passed = record passing {
  incoming = [];
  passed_fds = [];
  outgoing = 6 ∷ 2 ∷ 0 ∷ 0 ∷ 0 ∷ 1 ∷ 2 ∷ [];
}

abbrev sending : Serving
sending = record serving {
  poller = record clients { slab = (1, (5, client passed)) ∷ [] };
  store = [];
  filenames_of_sent_files = pages ∷ pages ∷ [];
  open_pipes = (pages, write_pipe 9) ∷ (pages, append_to (write_pipe 4) (0 ∷ 1 ∷ [])) ∷ [];
}

sending_lem : serve_file opening sys 1 pages passing serving ≡ ok sending
unfolding serve_file is_in ◌=?=◌ Map.get cedana_image_streamer.Connection.send_file_reply
    cedana_image_streamer.Util.pb_write cedana_image_streamer.Connection.recv_pipe send_over_chunks
    vmsplice_all deref write_all cedana_image_streamer.Poller.update Map.without is_small_file
    cedana_image_streamer.Poller.Entries.put Semaphore.release
sending_lem = refl

serve_file-IsAnswered_example :
    IsAnswered opening sys reply-Decodes 1 pages passing serving (7 ∷ []) sending
serve_file-IsAnswered_example =
    serve_file-IsAnswered opening sys reply-Decodes 1 pages passing serving (7 ∷ []) sending
      sending_lem
