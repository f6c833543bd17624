-- ===== src/Serve.antt =====
-- src/extract.rs, `serve()`: the thread that serves an image from memory while the extraction fills it.
--
-- What the thread receives, what poll() answers, and the peers behind the connections are data that the
-- thread consumes, one `Turn` for each round of its loop.
pub mod Chunks
pub mod State
pub mod Loop
use cedana_image_streamer.Prelude.{
  ℕ, zero, suc, ◌+◌, Bool, true, false, if◌then◌else◌, not, ◌&&◌, ◌||◌, Bytes, codes, ◌=?=◌, Option,
  none, some, List, [], ◌∷◌, ◌++◌, map, Result, ok, err, out_of_fuel, ◌>>=◌,
}
use cedana_image_streamer.Prelude.Map
use cedana_image_streamer.Prelude.Map.{Map}
use cedana_image_streamer.System.{System}
use cedana_image_streamer.MmapBuf.{MmapBuf, deref}
use cedana_image_streamer.Semaphore.{Semaphore, release}
use cedana_image_streamer.UnixPipe.{WritePipe, vmsplice_all}
use cedana_image_streamer.Util.Files.{is_small_file}
use cedana_image_streamer.ImageStore.Parallel.{FileContent, eof, content, Message}

module _ (sys : System) where
  -- `send_over_chunks`: the chunks up to the end of the file go to the client's pipe. Whether the end was
  -- there, the pipe, and the budget with what was sent given back. A chunk behind the end is dropped.
  unfoldable pub send_over_chunks :
      Bytes → List FileContent → WritePipe → Semaphore → Result (Bool × WritePipe × Semaphore)
  send_over_chunks filename [] pipe semaphore = ok (false, pipe, semaphore)
  send_over_chunks filename (eof ∷ chunks) pipe semaphore = ok (true, pipe, semaphore)
  send_over_chunks filename (content chunk ∷ chunks) pipe semaphore = do
    pipe' ← vmsplice_all sys.kernel (deref chunk) pipe
    send_over_chunks filename chunks pipe'
        (if is_small_file sys.is_match filename then semaphore else release chunk.len semaphore)
