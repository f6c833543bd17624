-- ===== src/ImageStore/Parallel.antt =====
-- src/image_store/fs_parallel.rs: the image store that hands the files, chunk by chunk, to the thread
-- that serves them.
--
-- A channel is the list of the messages sent, with its receiver: `accepts n` says whether the receiver is
-- still there when `n` messages were sent before. The two channels stand in the store, since a file keeps
-- a clone of its sender when the store has dropped its own. `releases` is what the serving thread gives
-- back to the semaphore, each time that a writer waits.
pub mod Sends
pub mod Exact
pub mod Closing
use cedana_image_streamer.Prelude.{
  ℕ, zero, suc, ◌+◌, ◌-◌, ◌*◌, min, leb, if◌then◌else◌, Bool, true, false, not, Bytes, Option, none,
  some, List, [], ◌∷◌, ◌++◌, length, take, drop, Result, ok, err, panic, out_of_fuel, ◌>>=◌, ◌>>◌,
  assert, ensure, assertion, unwrap_none, short_read, send_failed,
}
use cedana_image_streamer.Util.{mb}
use cedana_image_streamer.Util.Files.{is_small_file}
use cedana_image_streamer.MmapBuf.{MmapBuf, with_capacity, resize, copy_from_slice}
use cedana_image_streamer.Semaphore.{Semaphore, acquire, release}
use cedana_image_streamer.ImageStore.{ImageStore}

pub data FileContent : Type 0 where
  eof : FileContent
  content : MmapBuf → FileContent

abbrev pub Message : Type 0
Message = Bytes × FileContent

pub record Channel : Type 0 where
  pub messages : List Message
  pub accepts : ℕ → Bool

-- `sender.send(message)`; `none` if the receiver is gone.
unfoldable pub send : Channel → Message → Option Channel
send c message =
    if c.accepts (length c.messages)
    then some (record c { messages = c.messages ++ message ∷ [] })
    else none

-- `has_sender` and `has_small_file_sender` say whether the options of the source hold a sender.
pub record FileSender : Type 0 where
  pub has_sender : Bool
  pub has_small_file_sender : Bool
  pub large_channel : Channel
  pub small_channel : Channel
  pub semaphore : Semaphore
  pub releases : List ℕ

-- `sender` is the channel of the small files if `is_small`: `create` picks both by the name.
pub record File : Type 0 where
  pub filename : Bytes
  pub is_small : Bool

-- `FileSender::new`
unfoldable pub new : Channel → Channel → Semaphore → List ℕ → FileSender
new sender small_file_sender semaphore releases = record {
  has_sender = true;
  has_small_file_sender = true;
  large_channel = sender;
  small_channel = small_file_sender;
  semaphore = semaphore;
  releases = releases;
}

abbrev pub close_small_file_sender : FileSender → FileSender
close_small_file_sender s = record s { has_small_file_sender = false }

abbrev pub close_senders : FileSender → FileSender
close_senders s = record s { has_small_file_sender = false; has_sender = false }

unfoldable pub send_large : FileSender → Message → Option FileSender
unfolding send
send_large s message = elim (send s.large_channel message) [
  | none ↦ none
  | some c ↦ some (record s { large_channel = c })
]

unfoldable pub send_small : FileSender → Message → Option FileSender
unfolding send
send_small s message = elim (send s.small_channel message) [
  | none ↦ none
  | some c ↦ some (record s { small_channel = c })
]

-- `.map_err(|e| anyhow!("could not insert file: {}", e))?`
unfoldable pub sent_or_fail : Option FileSender → Result FileSender
sent_or_fail none = err send_failed
sent_or_fail (some s) = ok s

-- `semaphore.acquire(want)`: the writer waits until enough was given back. A writer that waits for ever
-- has no answer.
unfoldable pub acquire_waiting : List ℕ → ℕ → Semaphore → Result (Semaphore × List ℕ)
acquire_waiting [] want s = elim (acquire want s) [ none ↦ out_of_fuel | some s' ↦ ok (s', []) ]
acquire_waiting (n ∷ releases) want s =
    let waited = acquire_waiting releases want (release n s) in
    elim (acquire want s) [ none ↦ waited | some s' ↦ ok (s', n ∷ releases) ]

-- `shard_pipe.read_exact(&mut chunk)?`, into a new buffer of `size` bytes.
unfoldable pub read_chunk : Bytes → ℕ → Result (MmapBuf × Bytes)
read_chunk pipe size = do
  chunk ← with_capacity size
  chunk' ← resize size chunk
  ensure (leb size (length pipe)) short_read
  chunk'' ← copy_from_slice 0 (take size pipe) chunk'
  ok (chunk'', drop size pipe)

-- `let _ = self.sender.send((..))`: a message to a receiver that is gone is dropped.
unfoldable pub send_or_drop : FileSender → Bool → Message → FileSender
unfolding send_large send_small
send_or_drop s true message = elim (send_small s message) [ none ↦ s | some s' ↦ s' ]
send_or_drop s false message = elim (send_large s message) [ none ↦ s | some s' ↦ s' ]

-- `if !self.is_small { self.semaphore.acquire(size) }`
unfoldable pub reserve : FileSender → Bool → ℕ → Result FileSender
unfolding acquire_waiting
reserve s true size = ok s
reserve s false size = do
  (semaphore, releases) ← acquire_waiting s.releases size s.semaphore
  ok (record s { semaphore = semaphore; releases = releases })

-- `while to_send > 0 { .. }`: each round takes a byte at least.
unfoldable pub write_loop : ℕ → ℕ → FileSender → File → Bytes → ℕ → Result (FileSender × Bytes)
unfolding reserve read_chunk send_or_drop
write_loop chunk_size fuel s file pipe zero = ok (s, pipe)
write_loop chunk_size zero s file pipe (suc n) = out_of_fuel
write_loop chunk_size (suc fuel) s file pipe (suc n) = do
  let size = min (suc n) chunk_size
  s' ← reserve s file.is_small size
  (chunk, rest) ← read_chunk pipe size
  write_loop chunk_size fuel (send_or_drop s' file.is_small (file.filename, content chunk)) file
      rest (suc n - size)

unfoldable pub write_all_from_pipe :
    ℕ → FileSender → File → Bytes → ℕ → Result (FileSender × File × Bytes)
unfolding write_loop
write_all_from_pipe chunk_size s file pipe size = do
  (s', rest) ← write_loop chunk_size size s file pipe size
  ok (s', file, rest)

-- The size of a chunk that `write_all_from_pipe` has in the source.
abbrev pub parallel_chunk : ℕ
parallel_chunk = 10 * mb

module _ (is_match : Bytes → Bytes → Bool) where
  -- `File::new`
  unfoldable pub new_file : Bytes → File
  new_file filename = record { filename = filename; is_small = is_small_file is_match filename }

  -- `create`: the first large file closes the channel of the small ones.
  unfoldable pub create : FileSender → Bytes → Result (FileSender × File)
  unfolding new_file
  create s filename =
      if is_small_file is_match filename
      then (assert s.has_small_file_sender unwrap_none >> ok (s, new_file filename))
      else (assert s.has_sender unwrap_none >> ok (close_small_file_sender s, new_file filename))

  -- `insert`: the end of the file is its last message.
  unfoldable pub insert : FileSender → Bytes → File → Result FileSender
  unfolding send_large send_small sent_or_fail
  insert s filename output =
      if is_small_file is_match filename
      then (assert s.has_small_file_sender unwrap_none
          >> sent_or_fail (send_small s (filename, eof)))
      else (assert (not s.has_small_file_sender) assertion
          >> assert s.has_sender unwrap_none
          >> sent_or_fail (send_large s (filename, eof)))

  -- `impl ImageStore for FileSender`
  abbrev pub parallel_store : ImageStore FileSender File
  parallel_store = record {
    create = create;
    insert = insert;
    write_all_from_pipe = write_all_from_pipe parallel_chunk;
  }
