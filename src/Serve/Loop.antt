-- ===== src/Serve/Loop.antt =====
-- src/extract.rs, `serve_img()`: the loop over what the extraction sends, the open pipes and the clients.
pub mod Once
pub mod Hangup
pub mod Sent
pub mod Answers
use cedana_image_streamer.Prelude.{
  ℕ, zero, suc, ◌+◌, ◌==◌, Bool, true, false, if◌then◌else◌, not, ◌&&◌, ◌||◌, Bytes, codes, ◌=?=◌,
  Option, none, some, List, [], ◌∷◌, ◌++◌, Result, ok, err, out_of_fuel, ◌>>=◌, ◌>>◌, ensure,
  accept_failed, requested_twice,
}
use cedana_image_streamer.Prelude.Map
use cedana_image_streamer.Prelude.Map.{Map}
use cedana_image_streamer.System.{System}
use cedana_image_streamer.Semaphore.{Semaphore}
use cedana_image_streamer.UnixPipe.{WritePipe}
use cedana_image_streamer.Util.Filter.{filter_files}
use cedana_image_streamer.Poller.{Poller, Wait, add, remove, poll, update}
use cedana_image_streamer.Poller
use cedana_image_streamer.Connection.{
  Messages, Connection, does_not_exist, not_ready, ready, read_next_file_request, recv_pipe,
  send_file_reply, send_file_list_reply,
}
use cedana_image_streamer.Image.{Codec}
use cedana_image_streamer.ImagePatcher.{FileEntry}
use cedana_image_streamer.ImagePatcher.Repack.{patch_img}
use cedana_image_streamer.ImageStore.Parallel.{FileContent, Message}
use cedana_image_streamer.Serve.{send_over_chunks}
use cedana_image_streamer.Serve.State.{
  Chunks, Received, message, disconnected, empty, PollType, listener, client, World, Serving,
  or_default, push_back, receive, push_all, files_img, patch_found, patch_store, Flushed, is_none,
  with_client, flush_pipes, flush,
}

abbrev pub stop_listener : Bytes
stop_listener = codes "stop-listener"

-- `HashSet::contains`
unfoldable pub is_in : Bytes → List Bytes → Bool
is_in name [] = false
is_in name (x ∷ xs) = x =?= name || is_in name xs

-- `pattern.contains('*')`
unfoldable pub has_star : Bytes → Bool
has_star [] = false
has_star (c ∷ cs) = c == 42 || has_star cs

module _ (world : World) (sys : System) where
  -- `Some(chunks) => { .. }`: the client gets what is there.
  unfoldable pub serve_chunks : ℕ → Bytes → Connection → Chunks → Serving → Result Serving
  serve_chunks key filename conn chunks s = do
    conn' ← send_file_reply world.messages true (some ready) conn
    (fd, pipe, conn'') ← recv_pipe world.open_pipe conn'
    (res, pipe', semaphore) ← send_over_chunks sys filename chunks pipe s.semaphore
    let s' = record s {
      poller = update key (client conn'') s.poller;
      filenames_of_sent_files = filename ∷ s.filenames_of_sent_files;
      semaphore = semaphore;
    }
    ok (
        if res
        then record s' { closed = s.closed ++ (filename, pipe') ∷ [] }
        else record s' { open_pipes = s.open_pipes ++ (filename, pipe') ∷ [] })

  -- `None => { .. }`: nothing of the file is there.
  unfoldable pub serve_missing : ℕ → Bytes → Connection → Serving → Result Serving
  serve_missing key filename conn s =
      let available = is_in filename world.file_list in
      let sent = is_in filename s.filenames_of_sent_files in
      let wait = send_file_reply world.messages true (some not_ready) conn >>= λ c.
      ok (with_client key c s) in
      let refuse =
        ensure (not sent && not available) requested_twice
        >> send_file_reply world.messages false (some does_not_exist) conn
        >>= λ c. ok (with_client key c s) in
      if available && not sent then wait else refuse

  unfoldable pub serve_found : ℕ → Bytes → Connection → Serving → Option Chunks → Result Serving
  unfolding serve_chunks serve_missing
  serve_found key filename conn s none = serve_missing key filename conn s
  serve_found key filename conn s (some chunks) =
      serve_chunks key filename conn chunks (record s { store = Map.without filename s.store })

  unfoldable pub serve_file : ℕ → Bytes → Connection → Serving → Result Serving
  unfolding serve_found
  serve_file key filename conn s =
      if not (is_in filename world.file_list)
      then (send_file_reply world.messages false (some does_not_exist) conn >>= λ c.
          ok (with_client key c s))
      else serve_found key filename conn s (Map.get filename s.store)

  unfoldable pub list_files : ℕ → Bytes → Connection → Serving → Result Serving
  list_files key pattern conn s =
      send_file_list_reply world.messages (filter_files world.regex world.file_list pattern) conn
      >>= λ c. ok (with_client key c s)

  unfoldable pub stop : ℕ → Connection → Serving → Result (Bool × Serving)
  stop key conn s = do
    (obj, poller) ← remove s.listener_key (with_client key conn s).poller
    ok (is_none s.open_pipes, record s { stopped = true; poller = poller })

  -- `match client.read_next_file_request()? { .. }`: whether the loop ends, and the state.
  unfoldable pub serve_request : ℕ → Option Bytes → Connection → Serving → Result (Bool × Serving)
  unfolding stop list_files serve_file
  serve_request key none conn s = ok (false, with_client key conn s)
  serve_request key (some []) conn s = list_files key [] conn s >>= λ t. ok (false, t)
  serve_request key (some (c ∷ cs)) conn s =
      if (c ∷ cs) =?= stop_listener
      then stop key conn s
      else if has_star (c ∷ cs)
      then (list_files key (c ∷ cs) conn s >>= λ t. ok (false, t))
      else (serve_file key (c ∷ cs) conn s >>= λ t. ok (false, t))

  unfoldable pub accept : ℕ → List (ℕ × Connection) → Serving → Result Serving
  accept key [] s = err accept_failed
  accept key ((fd, conn) ∷ connections) s = do
    (new_key, poller) ←
        add world.vacant fd (client conn) (update key (listener connections) s.poller)
    ok (record s { poller = poller })

  -- `let Some((_, poll_obj)) = obj else { .. }; match poll_obj { .. }`
  unfoldable pub react : Option (ℕ × PollType) → Serving → Result (Bool × Serving)
  unfolding serve_request accept
  react none s = ok (s.stopped && is_none s.open_pipes, s)
  react (some (key, listener connections)) s = accept key connections s >>= λ t. ok (false, t)
  react (some (key, client conn)) s = do
    (request, conn') ← read_next_file_request world.messages conn
    serve_request key request conn' s

  -- One round: receive, flush, poll, react.
  unfoldable pub round :
      List Wait → List Received → Serving → Result (Bool × Serving × List Wait × List Received)
  unfolding receive flush react
  round waits received s = do
    let (s1, later) = if s.receiver_eof then (s, received) else receive received s
    s2 ← flush sys s1
    (obj, poller, waits') ← poll waits s2.poller
    (done, s3) ← react obj (record s2 { poller = poller })
    ok (done, s3, waits', later)

  -- `loop { .. }`
  unfoldable pub serve_loop : ℕ → List Wait → List Received → Serving → Result Serving
  unfolding round
  serve_loop zero waits received s = out_of_fuel
  serve_loop (suc fuel) waits received s = do
    (done, s', waits', later) ← round waits received s
    let again = serve_loop fuel waits' later s'
    if done then ok s' else again

  -- `serve_img()`: the small files, the ports of files.img, the listener, the loop.
  unfoldable pub serve_img :
      Codec FileEntry
      → List (ℕ × ℕ)
      → List Message
      → Semaphore
      → ℕ
      → List (ℕ × Connection)
      → ℕ
      → List Wait
      → List Received
      → Result Serving
  unfolding patch_store push_all serve_loop
  serve_img codec tcp_listen_remaps small_files semaphore listener_fd connections fuel waits
        received =
      do
        store ← patch_store codec tcp_listen_remaps (push_all small_files [])
        (listener_key, poller) ← add world.vacant listener_fd (listener connections) Poller.new
        serve_loop fuel waits received (record {
          poller = poller;
          listener_key = listener_key;
          store = store;
          filenames_of_sent_files = [];
          receiver_eof = false;
          open_pipes = [];
          closed = [];
          stopped = false;
          semaphore = semaphore;
        })
