-- ===== src/ImageStore/Mem/Drain.antt =====
-- src/image_store/mem.rs: a file that is drained, or read through its reader, gives its contents.
use cedana_image_streamer.Prelude.{
  ℕ, ◌≡◌, refl, leb, Bool-cases, inl, inr, Bytes, List, [], ◌∷◌, ◌++◌, map, concat, append-nil,
  append_assoc, length, take, drop, take_all, length-take, take-append-drop, ok, arith, ◌∙◌, sym,
  zero, suc, ◌<◌, All, Result, out_of_fuel, ◌>>=◌, if◌then◌else◌, ◌==◌, false, length-drop,
  length-append, ap,
}
use cedana_image_streamer.MmapBuf.{MmapBuf, deref}
use cedana_image_streamer.UnixPipe.{Kernel, Progresses, WritePipe}
use cedana_image_streamer.UnixPipe.Splice.{IsOpen, append_to, write_all_open, vmsplice_all_open}
use cedana_image_streamer.ImageStore.Mem.{File, small, large, slices, read, drain_chunks, drain}
use cedana_image_streamer.ImageStore.Mem.Write.{contents}

module _ (kernel : Kernel) where
  drain_chunks_lem :
      (chunks : List MmapBuf) (dst : WritePipe)
      → Progresses kernel
      → IsOpen dst
      → drain_chunks kernel chunks dst ≡ ok (append_to dst (concat (map deref chunks)))
  unfolding drain_chunks
  drain_chunks_lem [] dst law h = rw append-nil
  drain_chunks_lem (chunk ∷ chunks) dst law h =
      rw (vmsplice_all_open kernel (deref chunk) dst law h)
        (drain_chunks_lem chunks (append_to dst (deref chunk)) law h ∙ rw append_assoc)

  -- With a kernel that makes progress and an open pipe, draining a file ends without an error and writes the
  -- contents of the file, in order, and nothing else.
  pub drain-contents :
      (file : File) (dst : WritePipe)
      → Progresses kernel
      → IsOpen dst
      → drain kernel file dst ≡ ok (append_to dst (contents file))
  unfolding drain contents slices
  drain-contents (small chunk) dst law h = rw append-nil (write_all_open dst chunk h)
  drain-contents (large chunks) dst law h = drain_chunks_lem chunks dst law h

-- The loop of `Read::read_to_end`: reads into buffers of `n` bytes, until one answers nothing.
unfoldable pub read_to_end : ℕ → List Bytes → ℕ → Result Bytes
read_to_end zero chunks n = out_of_fuel
read_to_end (suc fuel) chunks n =
    let answer = read chunks n in
    let later = read_to_end fuel answer.1 n in
    if length answer.0 == 0 then ok [] else (later >>= λ bytes. ok (answer.0 ++ bytes))

-- No slice is empty.
abbrev pub IsFull : List Bytes → Type 0
IsFull chunks = All (λ (chunk : Bytes). 0 < length chunk) chunks

-- A read of a buffer that is not empty, where a slice is left, makes progress.
read_progress :
    (chunk : Bytes) (chunks : List Bytes) (n : ℕ)
    → 0 < n
    → IsFull (chunk ∷ chunks)
    → (0 < length (read (chunk ∷ chunks) n).0)
      × IsFull (read (chunk ∷ chunks) n).1
      × ((read (chunk ∷ chunks) n).0 ++ concat (read (chunk ∷ chunks) n).1
          ≡ concat (chunk ∷ chunks))
unfolding read
read_progress chunk chunks n pos (full, later) = elim (Bool-cases (leb (length chunk) n)) [
  | inl t ↦
      (omega (arith, length-take n chunk), rw t later, rw (t, take_all n chunk (ground arith)) refl)
  | inr f ↦ (
    omega (arith, length-take n chunk),
    rw f (ground (arith, length-drop n chunk), later),
    rw f (
        sym (append_assoc (take n chunk) (drop n chunk) (concat chunks))
        ∙ rw (take-append-drop n chunk)),
  )
]

-- Where no slice is empty, reading to the end through a buffer of any size but 0 ends, and gives the contents
-- of all the slices, in order.
pub read_to_end-concat :
    (fuel : ℕ) (chunks : List Bytes) (n : ℕ)
    → 0 < n
    → IsFull chunks
    → length (concat chunks) < fuel
    → read_to_end fuel chunks n ≡ ok (concat chunks)
unfolding read_to_end
read_to_end-concat zero chunks n pos full f = absurd (omega arith)
read_to_end-concat (suc fuel) [] n pos full f = unfold read in refl
read_to_end-concat (suc fuel) (chunk ∷ chunks) n pos full f =
    let (some_read, full', same) = read_progress chunk chunks n pos full in
    let answer = read (chunk ∷ chunks) n in
    let go : (length answer.0 == 0) ≡ false = ground arith in
    let later =
      read_to_end-concat fuel answer.1 n pos full'
        (omega (arith, length-append answer.0 (concat answer.1), ap length same)) in
    rw (go, later) (ap ok same)
