-- ===== src/Serve/Chunks.antt =====
-- src/extract.rs, `send_over_chunks()`: what the client gets, and what the budget gets back.
use cedana_image_streamer.Prelude.{
  ℕ, ◌+◌, ◌-◌, ◌≤◌, ◌<◌, ◌≡◌, refl, ◌∙◌, sym, min, if◌then◌else◌, Bool, true, false, Bytes, List,
  [], ◌∷◌, ◌++◌, map, concat, length, length-append, length-take_le, take, drop, append-nil,
  append_assoc, ok, subst, arith,
}
use cedana_image_streamer.System.{System, Laws}
use cedana_image_streamer.MmapBuf.{MmapBuf, deref}
use cedana_image_streamer.MmapBuf.Laws.{length-deref}
use cedana_image_streamer.Semaphore.{Semaphore, release}
use cedana_image_streamer.UnixPipe.{WritePipe}
use cedana_image_streamer.UnixPipe.Splice.{IsOpen, append_to, vmsplice_all_open}
use cedana_image_streamer.Util.Files.{is_small_file}
use cedana_image_streamer.ImageStore.Parallel.{
  eof, content, Message, FileSender, File, new_file, write_all_from_pipe,
}
use cedana_image_streamer.ImageStore.Parallel.Sends.{
  IsServed, with_sent, charge, HasBudget, content_messages, write_all_from_pipe-Sends,
}
use cedana_image_streamer.Serve.{send_over_chunks}

-- The budget with `n` bytes back, if they were charged.
abbrev pub refund : Bool → ℕ → Semaphore → Semaphore
refund true n s = s
refund false n s = record s { count = s.count + n }

-- Nothing comes back that was not taken.
abbrev pub HasRoom : Bool → ℕ → Semaphore → Type 0
HasRoom true n s = Unit
HasRoom false n s = s.count + n ≤ s.start_val

refund-step :
    (small : Bool) (k n : ℕ) (s : Semaphore)
    → HasRoom small (k + n) s
    → (if small then s else release k s) ≡ refund small k s
unfolding release
refund-step true k n s h = refl
refund-step false k n s h =
    let m : min (s.count + k) s.start_val ≡ s.count + k = omega arith in rw m refl

refund-refund :
    (small : Bool) (k n : ℕ) (s : Semaphore)
    → refund small n (refund small k s) ≡ refund small (k + n) s
refund-refund true k n s = refl
refund-refund false k n s = let m : s.count + k + n ≡ s.count + (k + n) = omega arith in rw m refl

HasRoom-left :
    (small : Bool) (k n : ℕ) (s : Semaphore)
    → HasRoom small (k + n) s
    → HasRoom small n (refund small k s)
HasRoom-left true k n s h = tt
HasRoom-left false k n s h = omega arith

refund-zero : (small : Bool) (s : Semaphore) → refund small 0 s ≡ s
refund-zero true s = refl
refund-zero false s = let m : s.count + 0 ≡ s.count = omega arith in rw m refl

abbrev bytes_of : List MmapBuf → Bytes
bytes_of chunks = concat (map deref chunks)

module _ (sys : System) (laws : Laws sys) (filename : Bytes) where
  abbrev small : Bool
  small = is_small_file sys.is_match filename

  -- The chunks of a file and its end, sent to a client that reads them.
  pub send_over_chunks-whole :
      (chunks : List MmapBuf) (pipe : WritePipe) (semaphore : Semaphore)
      → IsOpen pipe
      → HasRoom small (length (bytes_of chunks)) semaphore
      → send_over_chunks sys filename (map content chunks ++ eof ∷ []) pipe semaphore
        ≡ ok (
          true,
          append_to pipe (bytes_of chunks),
          refund small (length (bytes_of chunks)) semaphore,
        )
  unfolding send_over_chunks
  send_over_chunks-whole [] pipe semaphore o h = rw (append-nil, refund-zero small semaphore) refl
  send_over_chunks-whole (chunk ∷ chunks) pipe semaphore o h =
      let rest = length (bytes_of chunks) in
      let len : length (bytes_of (chunk ∷ chunks)) ≡ chunk.len + rest =
        length-append (deref chunk) (bytes_of chunks) ∙ rw (length-deref chunk) refl in
      let h' : HasRoom small (chunk.len + rest) semaphore =
        subst (λ (n : ℕ). HasRoom small n semaphore) len h in
      rw (vmsplice_all_open sys.kernel (deref chunk) pipe laws.progresses o, len)
        (subst
          (λ (s : Semaphore).
            send_over_chunks sys filename (map content chunks ++ eof ∷ [])
              (append_to pipe (deref chunk)) s
            ≡ ok (
              true,
              append_to pipe (bytes_of (chunk ∷ chunks)),
              refund small (chunk.len + rest) semaphore,
            ))
          (sym (refund-step small chunk.len rest semaphore h'))
          (send_over_chunks-whole chunks (append_to pipe (deref chunk))
              (refund small chunk.len semaphore) o (HasRoom-left small chunk.len rest semaphore h')
            ∙ rw (append_assoc, refund-refund small chunk.len rest semaphore) refl))

refund-charge :
    (small : Bool) (n : ℕ) (ms : List Message) (s : FileSender)
    → HasBudget small n s
    → s.semaphore.count ≤ s.semaphore.start_val
    → HasRoom small n (charge small n (with_sent small ms s)).semaphore
      × (refund small n (charge small n (with_sent small ms s)).semaphore ≡ s.semaphore)
refund-charge true n ms s b v = (tt, refl)
refund-charge false n ms s b v =
    let m : s.semaphore.count - n + n ≡ s.semaphore.count = omega arith in (omega arith, rw m refl)

-- Let the receivers be there, the pipe of the shard hold `size` bytes, the budget cover them if the file is
-- large, and the client read to the end. Then the extraction's write of these bytes succeeds, and the
-- messages that it sends, followed by the end of the file, make the serving thread write exactly these
-- bytes to the client, report the file as complete, and bring the budget back to what it was.
pub write-send_over_chunks :
    (sys : System) (laws : Laws sys) (filename : Bytes) (chunk_size : ℕ) (s : FileSender)
    (pipe : Bytes) (size : ℕ) (client : WritePipe)
    → 0 < chunk_size
    → IsServed s
    → size ≤ length pipe
    → HasBudget (is_small_file sys.is_match filename) size s
    → s.semaphore.count ≤ s.semaphore.start_val
    → IsOpen client
    → (chunks : List MmapBuf) × (s' : FileSender) × (s'
        ≡ charge
            (is_small_file sys.is_match filename)
            size
            (with_sent (is_small_file sys.is_match filename) (content_messages filename chunks) s))
      × (write_all_from_pipe chunk_size s (new_file sys.is_match filename) pipe size
          ≡ ok (s', new_file sys.is_match filename, drop size pipe))
      × (send_over_chunks sys filename (map content chunks ++ eof ∷ []) client s'.semaphore
          ≡ ok (true, append_to client (take size pipe), s.semaphore))
unfolding new_file
write-send_over_chunks sys laws filename chunk_size s pipe size client p v h b r o =
    let small = is_small_file sys.is_match filename in
    let file : File = new_file sys.is_match filename in
    let (chunks, e, same, bounds) = write_all_from_pipe-Sends chunk_size s file pipe size p v h b in
    let (room, back) = refund-charge small size (content_messages filename chunks) s b r in
    let n : length (concat (map deref chunks)) ≡ size = rw same (length-take_le size pipe h) in
    (
      chunks,
      charge small size (with_sent small (content_messages filename chunks) s),
      refl,
      e,
      send_over_chunks-whole sys laws filename chunks client
            (charge small size (with_sent small (content_messages filename chunks) s)).semaphore o
            (rw n room)
          ∙ rw (n, same, back) refl,
    )
