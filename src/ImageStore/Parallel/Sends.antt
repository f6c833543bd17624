-- ===== src/ImageStore/Parallel/Sends.antt =====
-- src/image_store/fs_parallel.rs: what a write sends, and what it takes from the semaphore.
use cedana_image_streamer.Prelude.{
  ℕ, zero, suc, ◌+◌, ◌-◌, ◌≤◌, ◌<◌, ◌≡◌, refl, ◌∙◌, sym, min, leb, Bool, true, false, Bytes, some,
  List, [], ◌∷◌, ◌++◌, map, concat, length, take, drop, length-take_le, length-drop, take-split,
  drop-split, append-nil, append_assoc, All, Result, ok, ensure, short_read, subst, arith,
}
use cedana_image_streamer.MmapBuf.{MmapBuf, deref}
use cedana_image_streamer.MmapBuf.Laws.{
  grown, deref-grown, resize_fits, copy_from_slice_fits, empty_buf, with_capacity_pos,
  deref-empty_buf,
}
use cedana_image_streamer.Semaphore.{Semaphore, acquire}
use cedana_image_streamer.ImageStore.Parallel.{
  content, Message, Channel, send, FileSender, File, send_large, send_small, acquire_waiting,
  read_chunk, send_or_drop, reserve, write_loop, write_all_from_pipe,
}

abbrev pub chunk_of : ℕ → Bytes → MmapBuf
chunk_of size pipe = grown (empty_buf size) (take size pipe)

deref-chunk_of : (size : ℕ) (pipe : Bytes) → deref (chunk_of size pipe) ≡ take size pipe
deref-chunk_of size pipe =
    deref-grown (empty_buf size) (take size pipe) ∙ rw (deref-empty_buf size) refl

pub read_chunk-enough :
    (pipe : Bytes) (size : ℕ)
    → 0 < size
    → size ≤ length pipe
    → read_chunk pipe size ≡ ok (chunk_of size pipe, drop size pipe)
unfolding read_chunk
read_chunk-enough pipe size p h =
    let fits : size ≡ 0 + length (take size pipe) = omega (arith, length-take_le size pipe h) in
    let there : ensure (leb size (length pipe)) short_read ≡ ok tt = ground arith in
    rw
      (
        with_capacity_pos size p,
        resize_fits (empty_buf size) size (omega arith),
        there,
        copy_from_slice_fits (empty_buf size) (take size pipe) size fits,
      )
      refl

-- The receiver stays until the end.
abbrev pub IsOpen : Channel → Type 0
IsOpen c = (n : ℕ) → c.accepts n ≡ true

abbrev pub IsServed : FileSender → Type 0
IsServed s = IsOpen s.small_channel × IsOpen s.large_channel

abbrev pub extend : Channel → List Message → Channel
extend c messages = record c { messages = c.messages ++ messages }

-- The store when some messages have gone to the channel of the small files, or to the other one.
abbrev pub with_sent : Bool → List Message → FileSender → FileSender
with_sent true messages s = record s { small_channel = extend s.small_channel messages }
with_sent false messages s = record s { large_channel = extend s.large_channel messages }

-- Only large files are charged for.
abbrev pub charge : Bool → ℕ → FileSender → FileSender
charge true n s = s
charge false n s = record s { semaphore = record s.semaphore { count = s.semaphore.count - n } }

abbrev pub HasBudget : Bool → ℕ → FileSender → Type 0
HasBudget true n s = Unit
HasBudget false n s = n ≤ s.semaphore.count

acquire_waiting-enough :
    (releases : List ℕ) (want : ℕ) (s : Semaphore)
    → want ≤ s.count
    → acquire_waiting releases want s ≡ ok (record s { count = s.count - want }, releases)
unfolding acquire_waiting acquire
acquire_waiting-enough [] want s h = ground arith
acquire_waiting-enough (n ∷ releases) want s h = ground arith

reserve-charge :
    (small : Bool) (n : ℕ) (s : FileSender)
    → HasBudget small n s
    → reserve s small n ≡ ok (charge small n s)
unfolding reserve
reserve-charge true n s h = refl
reserve-charge false n s h = rw (acquire_waiting-enough s.releases n s.semaphore h) refl

pub send-open :
    (c : Channel) (message : Message) → IsOpen c → send c message ≡ some (extend c (message ∷ []))
unfolding send
send-open c message h =
    let e : c.accepts (length c.messages) ≡ true = h (length c.messages) in ground arith

send_or_drop-with_sent :
    (small : Bool) (s : FileSender) (message : Message)
    → IsServed s
    → send_or_drop s small message ≡ with_sent small (message ∷ []) s
unfolding send_or_drop send_small send_large
send_or_drop-with_sent true s message h =
    rw (send_or_drop, send-open s.small_channel message h.0) refl
send_or_drop-with_sent false s message h =
    rw (send_or_drop, send-open s.large_channel message h.1) refl

with_sent-nil : (small : Bool) (s : FileSender) → with_sent small [] s ≡ s
with_sent-nil true s = rw append-nil refl
with_sent-nil false s = rw append-nil refl

charge-zero : (small : Bool) (s : FileSender) → charge small 0 s ≡ s
charge-zero true s = refl
charge-zero false s = let z : s.semaphore.count - 0 ≡ s.semaphore.count = omega arith in rw z refl

-- Two charges with a message between them.
charge-with_sent :
    (small : Bool) (a n : ℕ) (ms ns : List Message) (s : FileSender)
    → a ≤ n
    → charge small (n - a) (with_sent small ns (with_sent small ms (charge small a s)))
      ≡ charge small n (with_sent small (ms ++ ns) s)
charge-with_sent true a n ms ns s h = rw append_assoc refl
charge-with_sent false a n ms ns s h =
    let z : s.semaphore.count - a - (n - a) ≡ s.semaphore.count - n = omega arith in
    rw (z, append_assoc) refl

HasBudget-left :
    (small : Bool) (a n : ℕ) (ms : List Message) (s : FileSender)
    → a ≤ n
    → HasBudget small n s
    → HasBudget small a s × HasBudget small (n - a) (with_sent small ms (charge small a s))
HasBudget-left true a n ms s h b = (tt, tt)
HasBudget-left false a n ms s h b = (omega arith, omega arith)

IsServed-kept :
    (small : Bool) (a : ℕ) (ms : List Message) (s : FileSender)
    → IsServed s
    → IsServed (with_sent small ms (charge small a s))
IsServed-kept true a ms s h = (h.0, h.1)
IsServed-kept false a ms s h = (h.0, h.1)

IsServed-charge : (small : Bool) (a : ℕ) (s : FileSender) → IsServed s → IsServed (charge small a s)
IsServed-charge true a s h = h
IsServed-charge false a s h = (h.0, h.1)

-- The messages of a file's chunks.
abbrev pub content_messages : Bytes → List MmapBuf → List Message
content_messages filename chunks = map (λ chunk. (filename, content chunk)) chunks

abbrev pub IsUpTo : ℕ → MmapBuf → Type 0
IsUpTo limit chunk = (0 < chunk.len) × (chunk.len ≤ limit)

-- What a write of the first `n` bytes of `pipe` answers.
abbrev pub Sends : ℕ → FileSender → File → Bytes → ℕ → Result (FileSender × Bytes) → Type 0
Sends chunk_size s file pipe n r =
    (chunks : List MmapBuf) × (r
      ≡ ok (
        charge file.is_small n (with_sent file.is_small (content_messages file.filename chunks) s),
        drop n pipe,
      ))
    × (concat (map deref chunks) ≡ take n pipe)
    × All (IsUpTo chunk_size) chunks

module _ (chunk_size : ℕ) (positive : 0 < chunk_size) (file : File) where
  one_more :
      (size n : ℕ) (s : FileSender) (pipe : Bytes) (r : Result (FileSender × Bytes))
      → size ≤ n
      → 0 < size
      → size ≤ chunk_size
      → n ≤ length pipe
      → Sends chunk_size
          (with_sent file.is_small
            ((file.filename, content (chunk_of size pipe)) ∷ [])
            (charge file.is_small size s))
          file
          (drop size pipe)
          (n - size)
          r
      → Sends chunk_size s file pipe n r
  one_more size n s pipe r a p c h (chunks, e, same, bounds) = (
    chunk_of size pipe ∷ chunks,
    e
        ∙ rw
            (
              charge-with_sent file.is_small size n
                  ((file.filename, content (chunk_of size pipe)) ∷ [])
                  (content_messages file.filename chunks) s a,
              drop-split size n pipe a,
            )
            refl,
    rw (deref-chunk_of size pipe, same) (take-split size n pipe a),
    (let m = length-take_le size pipe (omega arith) in (omega arith, omega arith), bounds),
  )

  write_loop-Sends :
      (fuel : ℕ) (s : FileSender) (pipe : Bytes) (n : ℕ)
      → n ≤ fuel
      → IsServed s
      → n ≤ length pipe
      → HasBudget file.is_small n s
      → Sends chunk_size s file pipe n (write_loop chunk_size fuel s file pipe n)
  unfolding write_loop
  write_loop-Sends fuel s pipe zero f v h b =
      ([], rw (with_sent-nil file.is_small s, charge-zero file.is_small s) refl, refl, tt)
  write_loop-Sends zero s pipe (suc n) f v h b = absurd (omega arith)
  write_loop-Sends (suc fuel) s pipe (suc n) f v h b =
      let size = min (suc n) chunk_size in
      let message : Message = (file.filename, content (chunk_of size pipe)) in
      let (now, later) =
        HasBudget-left file.is_small size (suc n) (message ∷ []) s (omega arith) b in
      rw
        (
          reserve-charge file.is_small size s now,
          read_chunk-enough pipe size (omega arith) (omega arith),
        )
        (subst
          (λ (t : FileSender).
            Sends chunk_size s file pipe (suc n)
              (write_loop chunk_size fuel t file (drop size pipe) (suc n - size)))
          (sym (
            send_or_drop-with_sent file.is_small (charge file.is_small size s) message
              (IsServed-charge file.is_small size s v)))
          (one_more size (suc n) s pipe _ (omega arith) (omega arith) (omega arith) h (
            write_loop-Sends fuel
              (with_sent file.is_small (message ∷ []) (charge file.is_small size s))
              (drop size pipe) (suc n - size) (omega arith)
              (IsServed-kept file.is_small size (message ∷ []) s v)
              (omega (arith, length-drop size pipe)) later)))

-- Let both receivers be there, let the pipe hold the bytes to write, and, for a large file, let the budget
-- be at least their number. Then a write succeeds without waiting. It sends messages with the name of the
-- file, to the channel of its kind alone; the chunks are not empty and within the chunk size, and one after
-- the other they are the bytes asked for. The rest stays in the pipe, and the budget of a large file falls
-- by the number of bytes.
pub write_all_from_pipe-Sends :
    (chunk_size : ℕ) (s : FileSender) (file : File) (pipe : Bytes) (size : ℕ)
    → 0 < chunk_size
    → IsServed s
    → size ≤ length pipe
    → HasBudget file.is_small size s
    → (chunks : List MmapBuf) × (write_all_from_pipe chunk_size s file pipe size
        ≡ ok (
          charge file.is_small size
              (with_sent file.is_small (content_messages file.filename chunks) s),
          file,
          drop size pipe,
        ))
      × (concat (map deref chunks) ≡ take size pipe)
      × All (IsUpTo chunk_size) chunks
unfolding write_all_from_pipe
write_all_from_pipe-Sends chunk_size s file pipe size p v h b =
    let (chunks, e, same, bounds) =
      write_loop-Sends chunk_size p file size s pipe size (omega arith) v h b in
    (chunks, rw e refl, same, bounds)
