-- ===== src/Capture/Session.antt =====
-- src/capture.rs, `capture()`: the loop over the listener, the clients and their image files.
--
-- What comes from outside is data that the session consumes: the connections to accept, the requests
-- on each, what arrives in each pipe between one drain and the next (`arrivals`, empty at the end of
-- the file), and the answers of epoll_wait().
use cedana_image_streamer.Prelude.{
  ℕ, zero, suc, ◌*◌, Bool, true, false, if◌then◌else◌, Bytes, codes, ◌=?=◌, Option, none, some,
  List, [], ◌∷◌, ◌++◌, map, Result, ok, err, out_of_fuel, ◌>>=◌, accept_failed,
}
use cedana_image_streamer.System.{System}
use cedana_image_streamer.UnixPipe.{WritePipe, Errno, increase_capacity}
use cedana_image_streamer.Poller.{Poller, Wait, add, remove, poll, update}
use cedana_image_streamer.Poller
use cedana_image_streamer.Connection.{Connection, Messages, read_next_file_request, recv_pipe}
use cedana_image_streamer.Capture.{
  ImageFile, ImageSerializer, Shard, new_shard, drain_img_file, write_image_eof,
}
use cedana_image_streamer.Capture

-- An image file in the poller: its name, what will be in its pipe at each drain, and whether fionread() works
-- on the pipe.
pub record OpenFile : Type 0 where
  pub name : Bytes
  pub arrivals : List Bytes
  pub has_fionread : Bool

pub data PollType : Type 0 where
  listener : List (ℕ × Connection) → PollType
  client : Connection → PollType
  image_file : OpenFile → PollType

-- The messages on the progress pipe, before the statistics.
pub data Progress : Type 0 where
  socket_init checkpoint_start : Progress

pub record World : Type 0 where
  pub messages : Messages
  -- The key that the slab gives out.
  pub vacant : List ℕ → ℕ
  -- What arrives in the pipe behind a descriptor; `none` if it is no pipe.
  pub open_pipe : ℕ → Option (List Bytes)
  -- Whether fionread() works on the pipe behind a descriptor.
  pub has_fionread : ℕ → Bool

pub record Session : Type 0 where
  pub poller : Poller PollType
  pub listener_key : ℕ
  pub img_serializer : ImageSerializer
  pub started : Bool
  pub progress : List Progress

abbrev pub stop_listener : Bytes
stop_listener = codes "stop-listener"

abbrev pub cpuinfo : Bytes
cpuinfo = codes "cpuinfo.img"

abbrev pub now_there : List Bytes → Bytes
now_there [] = []
now_there (bytes ∷ later) = bytes

abbrev pub arriving_later : List Bytes → List Bytes
arriving_later [] = []
arriving_later (bytes ∷ later) = later

-- `notify_checkpoint_start_once.call_once(..)`, unless the file is cpuinfo.img.
unfoldable pub notify_start : Bytes → Session → Session
notify_start filename s =
    if filename =?= cpuinfo
    then s
    else (if s.started
        then s
        else record s { started = true; progress = s.progress ++ checkpoint_start ∷ [] })

module _ (world : World) where
  unfoldable pub accept : ℕ → List (ℕ × Connection) → Session → Result Session
  accept key [] s = err accept_failed
  accept key ((fd, conn) ∷ connections) s = do
    (new_key, poller) ←
        add world.vacant fd (client conn) (update key (listener connections) s.poller)
    ok (record s { poller = poller })

  -- A request for a file: the pipe that comes with it is drained from now on.
  unfoldable pub open_file : ℕ → Bytes → Connection → Session → Result Session
  unfolding notify_start
  open_file key filename conn s = do
    let s' = notify_start filename s
    (fd, arrivals, conn') ← recv_pipe world.open_pipe conn
    (new_key, poller) ←
        add world.vacant fd
          (image_file
            (record { name = filename; arrivals = arrivals; has_fionread = world.has_fionread fd }))
          (update key (client conn') s'.poller)
    ok (record s' { poller = poller })

  unfoldable pub forget : ℕ → Session → Result Session
  forget key s = do (obj, poller) ← remove key s.poller; ok (record s { poller = poller })

  -- `match client.read_next_file_request()? { .. }`
  unfoldable pub serve_request : ℕ → Option Bytes → Connection → Session → Result Session
  unfolding open_file forget
  serve_request key none conn s = forget key s
  serve_request key (some filename) conn s =
      if filename =?= stop_listener
      then forget s.listener_key (record s { poller = update key (client conn) s.poller })
      else open_file key filename conn s

  module _ (sys : System) where
    unfoldable pub drain_file : ℕ → OpenFile → Session → Result Session
    unfolding forget
    drain_file key file s = do
      (img_serializer, left, more) ← drain_img_file sys s.img_serializer (record {
        pipe = now_there file.arrivals;
        has_fionread = file.has_fionread;
        name = file.name;
      })
      let file' = record file { arrivals = arriving_later file.arrivals }
      let s' = record s {
        img_serializer = img_serializer;
        poller = update key (image_file file') s.poller;
      }
      if more then ok s' else forget key s'

    -- `match poll_obj { .. }`
    unfoldable pub handle : ℕ → PollType → Session → Result Session
    unfolding accept serve_request drain_file
    handle key (listener connections) s = accept key connections s
    handle key (client conn) s = do
      (request, conn') ← read_next_file_request world.messages conn
      serve_request key request conn' s
    handle key (image_file file) s = drain_file key file s

    -- `while let Some((poll_key, poll_obj)) = poller.poll(..)? { .. }`, as many rounds at most as there is
    -- fuel. The rounds end with the clients and their files.
    unfoldable pub capture_loop : ℕ → List Wait → Session → Result Session
    unfolding handle
    capture_loop zero waits s = out_of_fuel
    capture_loop (suc fuel) waits s = do
      (found, poller, waits') ← poll waits s.poller
      let s' = record s { poller = poller }
      let go = λ (z : ℕ × PollType). handle z.0 z.1 s' >>= capture_loop fuel waits'
      elim found [ none ↦ ok s' | some z ↦ go z ]

    -- The external files, each polled from the start.
    unfoldable pub add_ext_files : List (ℕ × OpenFile) → Poller PollType → Result (Poller PollType)
    add_ext_files [] poller = ok poller
    add_ext_files ((fd, file) ∷ files) poller = do
      (key, poller') ← add world.vacant fd (image_file file) poller
      add_ext_files files poller'

    -- `capture()` up to the statistics: the session at its end. `set_capacity` is fcntl(F_SETPIPE_SZ), and
    -- 1 MB is SHARD_PIPE_DESIRED_CAPACITY.
    unfoldable pub capture :
        (ℕ → ℕ → Errno)
        → ℕ
        → List (ℕ × Connection)
        → List WritePipe
        → List (ℕ × OpenFile)
        → ℕ
        → List Wait
        → Result Session
    unfolding capture_loop add_ext_files
    capture set_capacity listener_fd connections shard_pipes ext_files fuel waits = do
      capacity ←
          increase_capacity sys.page_size set_capacity (map (λ p. p.fd) shard_pipes) (1024 * 1024)
      (listener_key, poller) ← add world.vacant listener_fd (listener connections) Poller.new
      poller' ← add_ext_files ext_files poller
      img_serializer ← Capture.new (map new_shard shard_pipes) capacity
      s ← capture_loop fuel waits (record {
        poller = poller';
        listener_key = listener_key;
        img_serializer = img_serializer;
        started = false;
        progress = socket_init ∷ [];
      })
      img_serializer' ← write_image_eof sys s.img_serializer
      ok (record s { img_serializer = img_serializer' })
