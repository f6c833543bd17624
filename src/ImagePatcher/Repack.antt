-- ===== src/ImagePatcher/Repack.antt =====
-- src/image_patcher.rs, `patch_img()`: the chunks of files.img are put together, patched, and packed into
-- one chunk.
use cedana_image_streamer.Prelude.{
  ℕ, ◌+◌, ◌<◌, ◌≡◌, refl, ◌∙◌, Bytes, List, [], ◌∷◌, ◌++◌, map, concat, append_assoc, append-nil,
  length, Result, ok, ◌>>=◌, arith,
}
use cedana_image_streamer.Image.{Codec}
use cedana_image_streamer.ImagePatcher.{FileEntry, patch_tcp_listen_remaps}
use cedana_image_streamer.MmapBuf.{MmapBuf, deref, with_capacity, resize, copy_from_slice}
use cedana_image_streamer.MmapBuf.Laws.{
  grown, deref-grown, empty_buf, with_capacity_pos, resize_fits, copy_from_slice_fits,
  deref-empty_buf,
}
use cedana_image_streamer.ImageStore.Parallel.{FileContent, eof, content}

-- `while let Some(content) = file_contents.pop_front() { .. }`
unfoldable pub gather : Bytes → List FileContent → Bytes
gather bytes [] = bytes
gather bytes (eof ∷ contents) = bytes
gather bytes (content chunk ∷ contents) = gather (bytes ++ deref chunk) contents

-- The new chunk, and the end of the file.
unfoldable pub repack : Bytes → Result (List FileContent)
repack bytes = do
  new_mmap ← with_capacity (length bytes)
  new_mmap' ← resize (length bytes) new_mmap
  new_mmap'' ← copy_from_slice 0 bytes new_mmap'
  ok (content new_mmap'' ∷ eof ∷ [])

unfoldable pub patch_img :
    Codec FileEntry → List FileContent → List (ℕ × ℕ) → Result (List FileContent)
unfolding gather repack
patch_img codec file_contents tcp_listen_remaps =
    patch_tcp_listen_remaps codec (gather [] file_contents) tcp_listen_remaps >>= repack

gather-whole :
    (bytes : Bytes) (chunks : List MmapBuf) (more : List FileContent)
    → gather bytes (map content chunks ++ eof ∷ more) ≡ bytes ++ concat (map deref chunks)
unfolding gather
gather-whole bytes [] more = rw append-nil refl
gather-whole bytes (chunk ∷ chunks) more =
    gather-whole (bytes ++ deref chunk) chunks more
    ∙ append_assoc bytes (deref chunk) (concat (map deref chunks))

repack-whole :
    (bytes : Bytes)
    → 0 < length bytes
    → (repack bytes ≡ ok (content (grown (empty_buf (length bytes)) bytes) ∷ eof ∷ []))
      × (deref (grown (empty_buf (length bytes)) bytes) ≡ bytes)
unfolding repack
repack-whole bytes h =
    let fits : length bytes ≡ 0 + length bytes = omega arith in
    (
      rw
          (
            with_capacity_pos (length bytes) h,
            resize_fits (empty_buf (length bytes)) (length bytes) (omega arith),
            copy_from_slice_fits (empty_buf (length bytes)) bytes (length bytes) fits,
          )
          refl,
      deref-grown (empty_buf (length bytes)) bytes ∙ rw (deref-empty_buf (length bytes)) refl,
    )

-- Let the bytes of a complete file, put together from its chunks, be patched to some bytes that are not
-- empty. Then `patch_img` answers one chunk and the end of the file, and the chunk holds the patched bytes.
-- What came behind the end of the file is gone.
pub patch_img-whole :
    (codec : Codec FileEntry) (chunks : List MmapBuf) (more : List FileContent)
    (tcp_listen_remaps : List (ℕ × ℕ)) (patched : Bytes)
    → patch_tcp_listen_remaps codec (concat (map deref chunks)) tcp_listen_remaps ≡ ok patched
    → 0 < length patched
    → (chunk : MmapBuf) × (patch_img codec (map content chunks ++ eof ∷ more) tcp_listen_remaps
        ≡ ok (content chunk ∷ eof ∷ []))
      × (deref chunk ≡ patched)
unfolding patch_img
patch_img-whole codec chunks more tcp_listen_remaps patched e h =
    let (r, same) = repack-whole patched h in
    (grown (empty_buf (length patched)) patched, rw (gather-whole [] chunks more, e) r, same)
