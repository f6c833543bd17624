-- ===== src/Lib.antt =====
-- cedana-image-streamer moves the image of a checkpointed process tree between CRIU and a set of
-- pipes, the shards. The capture (src/capture.rs) reads the image files from the client's pipes, cuts
-- them into chunks behind markers, and writes each chunk to the shard that has the most room; small
-- files go to the first shard. The extraction (src/extract.rs) reads the markers from the shards and
-- replays them in the order of their sequence numbers into an image store (src/image_store). When an
-- image is served, the store is two channels to a thread that hands the files to the clients.
--
-- The files, and the code that they model:
--   Prelude            shared names, lists, results, signed numbers, maps keyed by names
--   Heap               std::collections::BinaryHeap: the greatest element of a bag
--   Image              proto/image.proto: the markers; prost is the parameter `Codec`
--   Util               src/util.rs: length-prefixed messages; Util/RoundTrip: reading what was written;
--                      Util/Files: `is_small_file`, over a parameter for the regular expressions;
--                      Util/Filter: `filter_files`; Util/Glob: what a pattern means
--   UnixPipe           src/unix_pipe.rs: the loops around splice(), vmsplice() and F_SETPIPE_SZ, over a
--                      kernel that chooses how much it moves; UnixPipe/Splice, UnixPipe/Capacity: laws
--   MmapBuf            src/mmap_buf.rs: a buffer over an anonymous mapping
--   Semaphore          src/semaphore.rs: the memory budget, under any interleaving of threads
--   ImagePatcher       src/image_patcher.rs: `patch_tcp_listen_remaps`; ImagePatcher/Repack: `patch_img`
--   Poller             src/poller.rs: the objects behind epoll; Poller/Entries: the slab; Poller/Valid:
--                      events of registered objects; Poller/Stale: an event whose object is gone
--   Connection         src/connection.rs and proto/criu/img-streamer.proto: the clients' messages
--   Main               src/main.rs: the command line; Main/Decimal, Main/Formats: numbers and arguments,
--                      parsed and printed; Main/Checks: what the checks let through
--   System             the outside: page size, kernel, protobuf, JSON, regular expressions
--   Stream             the byte streams of the shards as lists of pieces
--   Capture            src/capture.rs: `ImageSerializer`; one definition per method. Capture/Writes: a
--                      chunk on its shard; Capture/Log: the pieces written so far, an invariant;
--                      Capture/Drain: what `drain_img_file` writes; Capture/Halts: its loops end;
--                      Capture/Choice: which shard a chunk goes to; Capture/Session: `capture()`;
--                      Capture/Sized: markers say how much follows them; Capture/Finish: the end of
--                      the image; Capture/Rounds and
--                      Capture/Whole: what `capture()` has written at its end
--   Transfer           the shards of a capture as those of an extraction
--   ImageStore         src/image_store/mod.rs: the traits as a record of operations. ImageStore/Mem:
--                      mem.rs; ImageStore/Overlay: fs_overlay.rs, with the bytes that it looks at
--                      (Exact); ImageStore/Parallel: fs_parallel.rs, with what it sends (Sends), the
--                      bytes that it looks at (Exact), and the order of the files (Closing)
--   Extract            src/extract.rs: `ImageDeserializer`; one definition per method. Extract/Sink: the
--                      output files; Extract/Replay: the specification; Extract/Invariant: what the
--                      main loop keeps; Extract/Deliver, Order, Process, Loop, Queues, Shards and
--                      Reassembly: its steps; Extract/InOrder: the whole; Extract/Stored: a file
--                      that is replayed into the store in memory; Extract/Small: the small files;
--                      Extract/Setup: `drain_shards_into_img_store` and the extraction in `serve`, and
--                      Setup/Served: that they replay the image in order, over the program's stores
--   Serve              src/extract.rs: `send_over_chunks`; Serve/Chunks: what a client gets; Serve/State
--                      and Serve/Loop: `serve_img`; Loop/Once: a file is handed out once;
--                      Loop/Sent: what the rounds keep; Loop/Answers: what a client is told;
--                      Loop/Hangup: a client that hangs up
--   Tests              concrete systems, runs and instances
--
-- State is passed explicitly: an operation takes a record and answers a `Result` of the new one, with
-- errors (anyhow) and panics (assert!, unwrap) apart. Bytes are numbers, pipes are lists of bytes, and
-- each pipe that is written to has a reader that may close it, or drain it, at any time, or never make room:
-- then a write blocks, and the run ends in `write_blocks`, as in an error. What comes from
-- outside in the course of a loop (answers of epoll_wait(), connections, requests, what arrives in a
-- pipe, what the other thread sends or gives back) is a list that the loop consumes. The binary
-- heaps are lists from which the greatest element is picked, and hash maps are association lists.
--
-- Loops run on fuel: splice_all, vmsplice_all, drain_img_file and write_all_from_pipe on the number of
-- bytes to move, since each round moves one at least; increase_capacity on the capacity, which each
-- round halves; process_pending_markers on the number of pending markers; the extraction's main loop
-- on the number of pieces and shards; drain_small_file_shard and patch_tcp_listen_remaps on the length
-- of the stream; write_all_from_pipe of the store over channels on the number of bytes. The loops of
-- `capture()` and `serve_img()` take the number of their rounds, since they end with their clients, and
-- `out_of_fuel` is also their answer while they still wait; `out_of_fuel` is an outcome apart, which
-- stands for no answer of the program.
--
-- Numbers are unbounded where the source's do not reach their bounds: 64-bit counters of markers and
-- bytes, and sizes that fit in the memory. The space left in a shard is an i32 that wraps around. A
-- String is the list of its characters. The lengths on the wire are four bytes, with the limit of 10 KB
-- that the source checks.
--
-- Not modelled: the two threads of `serve()` in one state, of which each is modelled by itself, and what
-- only calls the operating system (src/image_store/fs.rs, the listening socket, opening a pipe from a
-- descriptor, the progress pipe and its statistics).
pub mod Prelude
pub mod Heap
pub mod Image
pub mod Util
pub mod UnixPipe
pub mod MmapBuf
pub mod Semaphore
pub mod ImagePatcher
pub mod Connection
pub mod Poller
pub mod Main
pub mod System
pub mod Stream
pub mod Transfer
pub mod Serve
pub mod Capture
pub mod ImageStore
pub mod Extract
pub mod Tests
