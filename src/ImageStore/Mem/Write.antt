-- ===== src/ImageStore/Mem/Write.antt =====
-- src/image_store/mem.rs: what the files of the store in memory hold after a write.
use cedana_image_streamer.Prelude.{
  ℕ, zero, suc, ◌+◌, ◌-◌, ◌≤◌, ◌<◌, ◌≡◌, refl, min, ltb, leb, Bool-cases, Option-cases, inl, inr,
  pop, pop-eq-some, pop-append_last, Bytes, some, List, [], ◌∷◌, ◌++◌, map, map-append, concat,
  concat-append, append-nil, append_assoc, length, take, drop, length-take_le, length-drop,
  length-append, take-split, drop-split, Result, ok, ◌>>=◌, All, All-append, All-left, true, false,
  arith, ◌∙◌, subst,
}
use cedana_image_streamer.MmapBuf.{MmapBuf, with_capacity, deref}
use cedana_image_streamer.MmapBuf.Laws.{
  grown, deref-grown, resize_fits, copy_from_slice_fits, empty_buf, with_capacity_pos,
  deref-empty_buf,
}
use cedana_image_streamer.ImageStore.Mem.{
  File, small, large, slices, large_from_slice, reserve_back, reserve_chunk, read_exact, top_up,
  copy_reserved, copy_from_reader, write_loop, write_all_from_pipe,
}

-- The bytes of a file.
unfoldable pub contents : File → Bytes
unfolding slices
contents file = concat (slices file)

abbrev pub IsSound : MmapBuf → Type 0
IsSound buf = buf.len ≤ buf.capacity

-- A small file fits in a page, and no chunk holds more than its capacity.
abbrev pub IsValid : ℕ → File → Type 0
IsValid max_small (small chunk) = length chunk ≤ max_small
IsValid max_small (large chunks) = All IsSound chunks

bytes_of-append :
    (front : List MmapBuf) (last : MmapBuf)
    → contents (large (front ++ last ∷ [])) ≡ contents (large front) ++ deref last
unfolding contents slices
bytes_of-append front last = rw (
  map-append deref front (last ∷ []),
  concat-append (map deref front) (deref last ∷ []),
  append-nil,
)

module _ (max_small max_large : ℕ) (room : max_small < max_large) where
  -- A large file whose last chunk has room.
  abbrev Reserves : Result File → Bytes → Type 0
  Reserves r bytes =
      (front : List MmapBuf) × (last : MmapBuf) × (r ≡ ok (large (front ++ last ∷ [])))
      × All IsSound front
      × (last.len < last.capacity)
      × (contents (large (front ++ last ∷ [])) ≡ bytes)

  push_new :
      (chunks : List MmapBuf)
      → All IsSound chunks
      → Reserves
          (with_capacity max_large >>= λ chunk. ok (large (chunks ++ chunk ∷ [])))
          (contents (large chunks))
  push_new chunks sound = (
    chunks,
    empty_buf max_large,
    rw (with_capacity_pos max_large (omega arith)),
    sound,
    omega arith,
    bytes_of-append chunks (empty_buf max_large) ∙ rw (deref-empty_buf max_large, append-nil),
  )

  reserve_back_lem :
      (chunks : List MmapBuf)
      → All IsSound chunks
      → Reserves (reserve_back max_small max_large chunks (pop chunks)) (contents (large chunks))
  unfolding reserve_back
  reserve_back_lem chunks sound = elim (Option-cases (pop chunks)) [
    | inl e ↦ rw e (push_new chunks sound)
    | inr ((front, last), e) ↦
        let e' = pop-eq-some chunks front last e in
        elim (Bool-cases (ltb last.len last.capacity)) [
          | inl t ↦ (
            front,
            last,
            rw (e, t, ← e') refl,
            All-left IsSound front (last ∷ []) (subst (All IsSound) e' sound),
            ground arith,
            rw e',
          )
          | inr f ↦ rw (e, f) (push_new chunks sound)
        ]
  ]

  large_from_slice_lem :
      (bytes : Bytes)
      → length bytes ≤ max_small
      → Reserves (large_from_slice max_small max_large bytes) bytes
  unfolding large_from_slice contents slices
  large_from_slice_lem bytes h =
      let fits : leb (length bytes) max_large ≡ true = ground arith in
      let e = resize_fits (empty_buf max_large) (length bytes) (omega arith) in
      let f = copy_from_slice_fits (empty_buf max_large) bytes (length bytes) (omega arith) in
      (
        [],
        grown (empty_buf max_large) bytes,
        rw (fits, with_capacity_pos max_large (omega arith), e, f) refl,
        tt,
        omega arith,
        rw (deref-grown (empty_buf max_large) bytes, deref-empty_buf max_large, append-nil),
      )

  -- What one round of the loop does with the bytes in front of it.
  abbrev Copies : Result (File × Bytes × ℕ) → Bytes → Bytes → ℕ → Type 0
  Copies r bytes pipe n =
      (file : File) × (k : ℕ) × (r ≡ ok (file, drop k pipe, k))
      × (0 < k)
      × (k ≤ n)
      × (contents file ≡ bytes ++ take k pipe)
      × IsValid max_small file

  top_up_lem :
      (front : List MmapBuf) (last : MmapBuf) (pipe : Bytes) (n : ℕ)
      → All IsSound front
      → last.len < last.capacity
      → 0 < n
      → n ≤ length pipe
      → Copies
          (top_up max_small max_large (some (front, last)) pipe n)
          (contents (large (front ++ last ∷ [])))
          pipe
          n
  unfolding top_up read_exact
  top_up_lem front last pipe n sound has_room h enough =
      let k = min n (last.capacity - last.len) in
      let len : length (take k pipe) ≡ k = length-take_le k pipe (omega arith) in
      let go : ltb (length pipe) k ≡ false = ground arith in
      let e = resize_fits last (last.len + k) (omega arith) in
      let f = copy_from_slice_fits last (take k pipe) (last.len + k) (omega arith) in
      (
        large (front ++ grown last (take k pipe) ∷ []),
        k,
        rw (e, go, f) refl,
        omega arith,
        omega arith,
        bytes_of-append front (grown last (take k pipe))
            ∙ rw (
              deref-grown last (take k pipe),
              ← append_assoc (contents (large front)) (deref last) (take k pipe),
              ← bytes_of-append front last,
            ),
        All-append IsSound front (grown last (take k pipe) ∷ []) sound (omega arith, tt),
      )

  reserved_lem :
      (file : File) (pipe : Bytes) (n : ℕ) (bytes : Bytes)
      → Reserves (reserve_chunk max_small max_large file n) bytes
      → 0 < n
      → n ≤ length pipe
      → Copies (copy_from_reader max_small max_large file pipe n) bytes pipe n
  unfolding copy_from_reader copy_reserved
  reserved_lem file pipe n bytes (front, last, e, sound, has_room, same) h enough =
      rw (e, pop-append_last front last, ← same)
        (top_up_lem front last pipe n sound has_room h enough)

  copy_from_reader_lem :
      (file : File) (pipe : Bytes) (n : ℕ)
      → IsValid max_small file
      → 0 < n
      → n ≤ length pipe
      → Copies (copy_from_reader max_small max_large file pipe n) (contents file) pipe n
  unfolding copy_from_reader copy_reserved reserve_chunk contents slices
  copy_from_reader_lem (small chunk) pipe n v h enough =
      elim (Bool-cases (ltb max_small (length chunk + n))) [
        | inl t ↦
            reserved_lem (small chunk) pipe n (contents (small chunk))
              (rw (t, append-nil) (large_from_slice_lem chunk v)) h enough
        | inr f ↦
            let fits : length chunk + n ≤ max_small = ground arith in
            (
              small (chunk ++ take n pipe),
              n,
              rw f refl,
              h,
              omega arith,
              rw (append-nil, append-nil) refl,
              omega (arith, length-append chunk (take n pipe), length-take_le n pipe enough, fits),
            )
      ]
  copy_from_reader_lem (large chunks) pipe n v h enough =
      reserved_lem (large chunks) pipe n (contents (large chunks)) (reserve_back_lem chunks v) h
        enough

  write_loop_lem :
      (fuel : ℕ) (file : File) (pipe : Bytes) (n : ℕ)
      → IsValid max_small file
      → n ≤ fuel
      → n ≤ length pipe
      → (file' : File) × (write_loop max_small max_large fuel file pipe n ≡ ok (file', drop n pipe))
        × (contents file' ≡ contents file ++ take n pipe)
        × IsValid max_small file'
  unfolding write_loop
  write_loop_lem fuel file pipe zero v f enough = (file, refl, rw append-nil, v)
  write_loop_lem zero file pipe (suc n) v f enough = absurd (omega arith)
  write_loop_lem (suc fuel) file pipe (suc n) v f enough =
      let (file', k, e, pos, le, same, v') =
        copy_from_reader_lem file pipe (suc n) v (omega arith) enough in
      let (file'', e', same', v'') =
        write_loop_lem fuel file' (drop k pipe) (suc n - k) v' (omega arith)
          (omega (arith, length-drop k pipe)) in
      (
        file'',
        rw (e, e', drop-split k (suc n) pipe le) refl,
        same' ∙ rw (same, append_assoc, take-split k (suc n) pipe le),
        v'',
      )

  -- Let a file be valid, and let the pipe hold `size` bytes at least. If a page is smaller than a large
  -- chunk, then `write_all_from_pipe` ends without an error, takes exactly `size` bytes from the pipe, and
  -- puts them behind the contents of the file, which is valid again.
  pub write_all_from_pipe-contents :
      (file : File) (pipe : Bytes) (size : ℕ)
      → IsValid max_small file
      → size ≤ length pipe
      → (file' : File) × (write_all_from_pipe max_small max_large file pipe size
          ≡ ok (file', drop size pipe))
        × (contents file' ≡ contents file ++ take size pipe)
        × IsValid max_small file'
  unfolding write_all_from_pipe
  write_all_from_pipe-contents file pipe size v enough =
      write_loop_lem size file pipe size v (omega arith) enough
