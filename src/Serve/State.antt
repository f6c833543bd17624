-- ===== src/Serve/State.antt =====
-- src/extract.rs, `serve_img()`: its state, what it receives, and the walk over the open pipes.
--
-- What the extraction sends (`Received`), what epoll_wait() answers, and the peers behind the connections
-- are data that the loop consumes. A pipe that the Rust program drops stays in the model, among the
-- `closed` ones, to say what was written to it.
use cedana_image_streamer.Prelude.{
  ℕ, Bool, true, false, if◌then◌else◌, Bytes, codes, Option, none, some, List, [], ◌∷◌, ◌++◌,
  Result, ok, ◌>>=◌,
}
use cedana_image_streamer.Prelude.Map
use cedana_image_streamer.Prelude.Map.{Map}
use cedana_image_streamer.System.{System}
use cedana_image_streamer.Semaphore.{Semaphore}
use cedana_image_streamer.UnixPipe.{WritePipe}
use cedana_image_streamer.Poller.{Poller, update}
use cedana_image_streamer.Connection.{Messages, Connection}
use cedana_image_streamer.Image.{Codec}
use cedana_image_streamer.ImagePatcher.{FileEntry}
use cedana_image_streamer.ImagePatcher.Repack.{patch_img}
use cedana_image_streamer.ImageStore.Parallel.{FileContent, Message}
use cedana_image_streamer.Serve.{send_over_chunks}

abbrev pub Chunks : Type 0
Chunks = List FileContent

-- What `receiver.try_recv()` answers.
pub data Received : Type 0 where
  message : Message → Received
  disconnected empty : Received

pub data PollType : Type 0 where
  listener : List (ℕ × Connection) → PollType
  client : Connection → PollType

pub record World : Type 0 where
  pub messages : Messages
  -- The key that the slab gives out.
  pub vacant : List ℕ → ℕ
  -- The pipe behind a descriptor; `none` if it is no pipe.
  pub open_pipe : ℕ → Option WritePipe
  -- `Regex::new`
  pub regex : Bytes → Option (Bytes → Bool)
  pub file_list : List Bytes

pub record Serving : Type 0 where
  pub poller : Poller PollType
  pub listener_key : ℕ
  pub store : Map Chunks
  pub filenames_of_sent_files : List Bytes
  pub receiver_eof : Bool
  pub open_pipes : List (Bytes × WritePipe)
  pub closed : List (Bytes × WritePipe)
  pub stopped : Bool
  pub semaphore : Semaphore

abbrev pub or_default : Option Chunks → Chunks
or_default none = []
or_default (some chunks) = chunks

-- `store.entry(filename).or_default().push_back(buf)`
unfoldable pub push_back : Message → Map Chunks → Map Chunks
push_back (filename, buf) store =
    Map.insert filename (or_default (Map.get filename store) ++ buf ∷ []) store

-- `loop { match receiver.try_recv() { .. } }`, and what is received later.
unfoldable pub receive : List Received → Serving → Serving × List Received
unfolding push_back
receive [] s = (s, [])
receive (empty ∷ later) s = (s, later)
receive (disconnected ∷ later) s = (record s { receiver_eof = true }, later)
receive (message m ∷ later) s = receive later (record s { store = push_back m s.store })

-- `for (filename, buf) in small_file_reciever { .. }`
unfoldable pub push_all : List Message → Map Chunks → Map Chunks
unfolding push_back
push_all [] store = store
push_all (m ∷ messages) store = push_all messages (push_back m store)

abbrev pub files_img : Bytes
files_img = codes "files.img"

unfoldable pub patch_found :
    Codec FileEntry → List (ℕ × ℕ) → Map Chunks → Option Chunks → Result (Map Chunks)
patch_found codec remaps store none = ok store
patch_found codec remaps store (some chunks) = do
  new_files_img ← patch_img codec chunks remaps
  ok (Map.insert files_img new_files_img store)

-- `if !tcp_listen_remaps.is_empty() { .. }`
unfoldable pub patch_store : Codec FileEntry → List (ℕ × ℕ) → Map Chunks → Result (Map Chunks)
unfolding patch_found
patch_store codec [] store = ok store
patch_store codec (remap ∷ remaps) store =
    patch_found codec (remap ∷ remaps) store (Map.get files_img store)

-- What a walk over the open pipes changes.
pub record Flushed : Type 0 where
  pub store : Map Chunks
  pub open_pipes : List (Bytes × WritePipe)
  pub closed : List (Bytes × WritePipe)
  pub semaphore : Semaphore

abbrev pub is_none : List (Bytes × WritePipe) → Bool
is_none [] = true
is_none (x ∷ xs) = false

abbrev pub with_client : ℕ → Connection → Serving → Serving
with_client key conn s = record s { poller = update key (client conn) s.poller }

module _ (sys : System) where
  -- `for (i, (filename, pipe)) in open_pipes.iter_mut().enumerate() { .. }`, and the removal of the finished
  -- ones.
  unfoldable pub flush_pipes : List (Bytes × WritePipe) → Flushed → Result Flushed
  flush_pipes [] f = ok f
  flush_pipes ((filename, pipe) ∷ pipes) f =
      let waiting =
        flush_pipes pipes (record f { open_pipes = f.open_pipes ++ (filename, pipe) ∷ [] }) in
      let go = λ (chunks : Chunks). send_over_chunks sys filename chunks pipe f.semaphore >>= λ z.
      flush_pipes pipes (
        if z.0
        then record f {
          store = Map.without filename f.store;
          semaphore = z.2;
          closed = f.closed ++ (filename, z.1) ∷ [];
        }
        else record f {
          store = Map.without filename f.store;
          semaphore = z.2;
          open_pipes = f.open_pipes ++ (filename, z.1) ∷ [];
        }) in
      elim (Map.get filename f.store) [ none ↦ waiting | some chunks ↦ go chunks ]

  unfoldable pub flush : Serving → Result Serving
  unfolding flush_pipes
  flush s = do
    f ←
        flush_pipes s.open_pipes
          (record { store = s.store; open_pipes = []; closed = s.closed; semaphore = s.semaphore })
    ok (record s {
      store = f.store;
      open_pipes = f.open_pipes;
      closed = f.closed;
      semaphore = f.semaphore;
    })
