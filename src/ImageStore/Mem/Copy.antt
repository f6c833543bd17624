-- ===== src/ImageStore/Mem/Copy.antt =====
-- src/image_store/mem.rs: a write looks at no byte behind those that it is told to take.
use cedana_image_streamer.Prelude.{
  ℕ, zero, suc, ◌+◌, ◌-◌, ◌≤◌, ◌≡◌, refl, min, ltb, pop, Bytes, Option, none, some, List, [], ◌∷◌,
  ◌++◌, length, length-append, drop, length-drop, take-append_le, drop-append_le, Result, ok,
  >>=-eq-ok, ok-injective, false, arith, ap, subst,
}
use cedana_image_streamer.Prelude.Map.{Map}
use cedana_image_streamer.MmapBuf.{MmapBuf, resize}
use cedana_image_streamer.ImageStore.Mem.{
  File, small, large, reserve_chunk, read_exact, top_up, copy_reserved, copy_from_reader,
  write_loop, write_all_from_pipe, mem_store,
}
use cedana_image_streamer.Extract.Replay.{TakesExactly}

module _ (max_small max_large : ℕ) (rest : Bytes) where
  -- What a step does on `pipe`, it does with more bytes behind it.
  abbrev Extended : (Bytes → Result (File × Bytes × ℕ)) → Bytes → ℕ → File × Bytes × ℕ → Type 0
  Extended step pipe n z =
      (step (pipe ++ rest) ≡ ok (z.0, z.1 ++ rest, z.2)) × (z.2 ≤ n) × (z.1 ≡ drop z.2 pipe)

  abbrev Extends : (Bytes → Result (File × Bytes × ℕ)) → Bytes → ℕ → Type 0
  Extends step pipe n = (z : File × Bytes × ℕ) → step pipe ≡ ok z → Extended step pipe n z

  read_exact-append :
      (offset : ℕ) (pipe : Bytes) (chunk : MmapBuf) (k : ℕ)
      → k ≤ length pipe
      → read_exact max_small max_large offset (pipe ++ rest) chunk k
        ≡ read_exact max_small max_large offset pipe chunk k
  unfolding read_exact
  read_exact-append offset pipe chunk k h =
      let a : ltb (length (pipe ++ rest)) k ≡ false = ground (arith, length-append pipe rest) in
      let b : ltb (length pipe) k ≡ false = ground arith in rw (a, b, take-append_le k pipe rest h)

  top_up-Extends :
      (o : Option (List MmapBuf × MmapBuf)) (pipe : Bytes) (n : ℕ)
      → n ≤ length pipe
      → Extends (λ p. top_up max_small max_large o p n) pipe n
  unfolding top_up
  top_up-Extends none pipe n h z e = cc
  top_up-Extends (some (front, chunk)) pipe n h z e =
      let m = min n (chunk.capacity - chunk.len) in
      let (chunk', r, e1) = >>=-eq-ok (resize (chunk.len + m) chunk) _ e in
      let (chunk'', c, e2) =
        >>=-eq-ok (read_exact max_small max_large chunk.len pipe chunk' m) _ e1 in
      subst (Extended (λ p. top_up max_small max_large (some (front, chunk)) p n) pipe n)
        (ok-injective e2)
        (
          rw
              (
                r,
                read_exact-append chunk.len pipe chunk' m (omega arith),
                c,
                drop-append_le m pipe rest (omega arith),
              )
              refl,
          omega arith,
          refl,
        )

  copy_reserved-Extends :
      (file : File) (pipe : Bytes) (n : ℕ)
      → n ≤ length pipe
      → Extends (λ p. copy_reserved max_small max_large file p n) pipe n
  unfolding copy_reserved
  copy_reserved-Extends (small chunk) pipe n h z e =
      subst (Extended (λ p. copy_reserved max_small max_large (small chunk) p n) pipe n)
        (ok-injective e)
        (rw (take-append_le n pipe rest h, drop-append_le n pipe rest h) refl, omega arith, refl)
  copy_reserved-Extends (large chunks) pipe n h z e = top_up-Extends (pop chunks) pipe n h z e

  write_loop-append :
      (fuel : ℕ) (file : File) (pipe : Bytes) (n : ℕ) (z : File × Bytes)
      → n ≤ length pipe
      → write_loop max_small max_large fuel file pipe n ≡ ok z
      → (write_loop max_small max_large fuel file (pipe ++ rest) n ≡ ok (z.0, z.1 ++ rest))
        × (length z.1 + n ≡ length pipe)
  unfolding write_loop copy_from_reader
  write_loop-append fuel file pipe zero z h e =
      subst
        (λ y.
          (◌≡◌ {A = Result (File × Bytes)} (ok (file, pipe ++ rest)) (ok (y.0, y.1 ++ rest)))
          × (length y.1 + 0 ≡ length pipe))
        (ok-injective e) (refl, omega arith)
  write_loop-append zero file pipe (suc n) z h e = cc
  write_loop-append (suc fuel) file pipe (suc n) z h e =
      let ((f, p, k), c, e1) =
        >>=-eq-ok (copy_from_reader max_small max_large file pipe (suc n)) _ e in
      let (f0, r, c1) = >>=-eq-ok (reserve_chunk max_small max_large file (suc n)) _ c in
      let (c', le, same) = copy_reserved-Extends f0 pipe (suc n) h (f, p, k) c1 in
      let (e', len) =
        write_loop-append fuel f p (suc n - k) z (omega (arith, ap length same, length-drop k pipe))
          e1 in
      (rw (r, c', e') refl, omega (arith, ap length same, length-drop k pipe, len))

length-eq_zero : (xs : Bytes) → length xs ≡ 0 → xs ≡ []
length-eq_zero [] h = refl
length-eq_zero (x ∷ xs) h = absurd (omega arith)

-- What `write_all_from_pipe` of the store in memory does with a pipe that holds just the bytes it is told to
-- take, it does with any bytes behind them: it succeeds with the same file, and leaves those bytes.
pub mem_store-append :
    (max_small max_large : ℕ) (files : Map File) (file : File) (payload rest : Bytes)
    (files' : Map File) (file' : File) (left : Bytes)
    → (mem_store max_small max_large).write_all_from_pipe files file payload (length payload)
      ≡ ok (files', file', left)
    → (mem_store max_small max_large).write_all_from_pipe files file
        (payload ++ rest)
        (length payload)
      ≡ ok (files', file', rest)
unfolding write_all_from_pipe
mem_store-append max_small max_large files file payload rest files' file' left e =
    let ((f, p), w, e1) =
      >>=-eq-ok (write_all_from_pipe max_small max_large file payload (length payload)) _ e in
    let (w', len) =
      write_loop-append max_small max_large rest (length payload) file payload (length payload)
        (f, p) (omega arith) w in
    let nothing = length-eq_zero p (omega arith) in
    subst
      (λ (z : Map File × File × Bytes).
        ((mem_store max_small max_large).write_all_from_pipe files file (payload ++ rest)
          (length payload))
        ≡ ok (z.0, z.1, rest))
      (ok-injective e1) (rw (w', nothing) refl)

-- The store in memory keeps what the extraction relies on.
pub mem_store-TakesExactly :
    (max_small max_large : ℕ) → TakesExactly (mem_store max_small max_large)
mem_store-TakesExactly max_small max_large = mem_store-append max_small max_large
