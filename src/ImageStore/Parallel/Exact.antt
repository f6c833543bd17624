-- ===== src/ImageStore/Parallel/Exact.antt =====
-- src/image_store/fs_parallel.rs: a write looks at no byte behind those that it is told to take.
use cedana_image_streamer.Prelude.{
  ℕ, zero, suc, ◌-◌, ◌≤◌, ◌≡◌, refl, ap, ◌∙◌, sym, min, Bool, Bytes, [], ◌++◌, length, drop,
  take-append_le, drop-append_le, drop_all, length-append, length-drop, Result, ok, >>=-eq-ok,
  ok-injective, subst, arith,
}
use cedana_image_streamer.MmapBuf.{MmapBuf, with_capacity}
use cedana_image_streamer.ImageStore.Parallel.{
  content, FileSender, File, read_chunk, send_or_drop, reserve, write_loop, write_all_from_pipe,
  parallel_store, parallel_chunk,
}
use cedana_image_streamer.ImageStore.Parallel.Sends.{chunk_of, read_chunk-enough}
use cedana_image_streamer.Extract.Replay.{TakesExactly}

-- A read that succeeds does so with more bytes behind it.
read_chunk-append :
    (pipe more : Bytes) (size : ℕ) (chunk : MmapBuf) (left : Bytes)
    → size ≤ length pipe
    → read_chunk pipe size ≡ ok (chunk, left)
    → (read_chunk (pipe ++ more) size ≡ ok (chunk, left ++ more)) × (left ≡ drop size pipe)
read_chunk-append pipe more zero chunk left h e =
    absurd (unfold read_chunk in unfold with_capacity in cc)
read_chunk-append pipe more (suc n) chunk left h e =
    let q = ok-injective (sym (read_chunk-enough pipe (suc n) (omega arith) h) ∙ e) in
    let l : drop (suc n) pipe ≡ left = ap (λ (z : MmapBuf × Bytes). z.1) q in
    let c : chunk_of (suc n) pipe ≡ chunk = ap (λ (z : MmapBuf × Bytes). z.0) q in
    (
      read_chunk-enough (pipe ++ more) (suc n) (omega arith)
            (omega (arith, length-append pipe more))
          ∙ rw (← c, ← l, take-append_le (suc n) pipe more h, drop-append_le (suc n) pipe more h)
              refl,
      sym l,
    )

write_loop-append :
    (chunk_size fuel : ℕ) (s : FileSender) (file : File) (pipe more : Bytes) (n : ℕ)
    (s' : FileSender) (left : Bytes)
    → n ≤ length pipe
    → write_loop chunk_size fuel s file pipe n ≡ ok (s', left)
    → (write_loop chunk_size fuel s file (pipe ++ more) n ≡ ok (s', left ++ more))
      × (length left ≡ length pipe - n)
unfolding write_loop
write_loop-append chunk_size fuel s file pipe more zero s' left h e =
    subst
      (λ (z : FileSender × Bytes).
        (◌≡◌ {A = Result (FileSender × Bytes)} (ok (s, pipe ++ more)) (ok (z.0, z.1 ++ more)))
        × (length z.1 ≡ length pipe - 0))
      (ok-injective e) (refl, omega arith)
write_loop-append chunk_size zero s file pipe more (suc n) s' left h e = cc
write_loop-append chunk_size (suc fuel) s file pipe more (suc n) s' left h e =
    let size = min (suc n) chunk_size in
    let (t, e1, r1) = >>=-eq-ok (reserve s file.is_small size) _ e in
    let ((chunk, rest), e2, r2) = >>=-eq-ok (read_chunk pipe size) _ r1 in
    let (e2', l) = read_chunk-append pipe more size chunk rest (omega arith) e2 in
    let k : length rest ≡ length pipe - size = ap length l ∙ length-drop size pipe in
    let (more_eq, len) =
      write_loop-append chunk_size fuel
        (send_or_drop t file.is_small (file.filename, content chunk)) file rest more (suc n - size)
        s' left (omega arith) r2 in
    (rw (e1, e2') more_eq, omega arith)

-- A write to the parallel store that succeeds on exactly the bytes asked for does the same with more bytes
-- behind them, and leaves these in the pipe: the contract of the extraction with its image stores.
pub parallel_store-TakesExactly :
    (is_match : Bytes → Bytes → Bool) → TakesExactly (parallel_store is_match)
unfolding write_all_from_pipe
parallel_store-TakesExactly is_match s file payload rest s' file' left e =
    let ((t, l), e1, e2) =
      >>=-eq-ok (write_loop parallel_chunk (length payload) s file payload (length payload)) _ e in
    let (more, len) =
      write_loop-append parallel_chunk (length payload) s file payload rest (length payload) t l
        (omega arith) e1 in
    let q = ok-injective e2 in
    let nothing : l ≡ [] = drop_all 0 l (omega arith) in
    rw (more, nothing) (ap (λ (z : FileSender × File × Bytes). ok (z.0, z.1, rest)) q)
