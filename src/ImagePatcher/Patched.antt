-- ===== src/ImagePatcher/Patched.antt =====
-- src/image_patcher.rs: files.img is a header and a stream of entries. The patched file is the same
-- header with the patched entries.
use cedana_image_streamer.Prelude.{
  ℕ, zero, suc, ◌+◌, ◌*◌, ◌<◌, ◌≤◌, ◌≡◌, refl, Bytes, List, [], ◌∷◌, ◌++◌, append-nil, append_assoc,
  length, length-append, ok, ◌>>◌, ensure, ports_not_found, All, arith, ◌∙◌,
}
use cedana_image_streamer.Image.{Codec, Decodes}
use cedana_image_streamer.Util.{kb, frame, put_u32_le, read_bytes_next, get_u32_le, pb_write}
use cedana_image_streamer.Util.RoundTrip.{pb_read_next-frame, pb_read_next-nil, length-frame}
use cedana_image_streamer.ImagePatcher.{
  FileEntry, Remaps, none_left, collect, files_magic, check_header, read_criu_img_header,
  write_criu_img_header, patch_entry, extend, patch_loop, patch_tcp_listen_remaps,
}

module _ (c : Codec FileEntry) where
  -- The entries, each behind its length.
  unfoldable pub serialize_entries : List FileEntry → Bytes
  serialize_entries [] = []
  serialize_entries (entry ∷ entries) = frame c entry ++ serialize_entries entries

  abbrev pub Fits : FileEntry → Type 0
  Fits entry = length (c.encode entry) < 10 * kb

  pb_write-Fits :
      (out : Bytes) (entry : FileEntry)
      → Fits entry
      → pb_write c extend out entry ≡ ok (out ++ frame c entry, length (frame c entry))
  unfolding pb_write
  pb_write-Fits out entry h = ground arith

  length-serialize_entries :
      (entries : List FileEntry) → length entries ≤ length (serialize_entries entries)
  unfolding serialize_entries
  length-serialize_entries [] = omega arith
  length-serialize_entries (entry ∷ entries) = omega (
    arith,
    length-append (frame c entry) (serialize_entries entries),
    length-frame c entry,
    length-serialize_entries entries,
  )

-- The entries one after the other, with the remaps that are not used up.
unfoldable pub patch_entries : Remaps → List FileEntry → List FileEntry × Remaps
patch_entries remaps [] = ([], remaps)
patch_entries remaps (entry ∷ entries) =
    let (entry', remaps') = patch_entry remaps entry in
    let (entries', left) = patch_entries remaps' entries in (entry' ∷ entries', left)

read-write_header :
    (rest : Bytes)
    → read_criu_img_header (write_criu_img_header [] files_magic ++ rest) files_magic ≡ ok rest
unfolding read_criu_img_header write_criu_img_header check_header put_u32_le get_u32_le
    read_bytes_next
read-write_header rest = refl

module _ (c : Codec FileEntry) (law : Decodes c) where
  patch_loop_lem :
      (fuel : ℕ) (remaps : Remaps) (entries : List FileEntry) (out : Bytes)
      → length entries < fuel
      → All (Fits c) entries
      → All (Fits c) (patch_entries remaps entries).0
      → patch_loop c fuel (serialize_entries c entries) remaps out
        ≡ ok (
          out ++ serialize_entries c (patch_entries remaps entries).0,
          (patch_entries remaps entries).1,
        )
  unfolding patch_loop patch_entries serialize_entries
  patch_loop_lem zero remaps entries out h f g = absurd (omega arith)
  patch_loop_lem (suc fuel) remaps [] out h f g = rw (pb_read_next-nil c, append-nil)
  patch_loop_lem (suc fuel) remaps (entry ∷ entries) out h f g =
      rw
        (
          pb_read_next-frame c entry (serialize_entries c entries) law f.0,
          pb_write-Fits c out (patch_entry remaps entry).0 g.0,
        )
        (patch_loop_lem fuel (patch_entry remaps entry).1 entries
            (out ++ frame c (patch_entry remaps entry).0) (omega arith) f.1 g.1
          ∙ rw append_assoc)

  -- Let a files.img be the header and some entries, none of which, before and after patching, is too large for
  -- a message. Then it is read to its end, and the result is the header with the patched entries if every remap
  -- was used, and an error otherwise.
  pub patch_tcp_listen_remaps-entries :
      (entries : List FileEntry) (pairs : List (ℕ × ℕ))
      → All (Fits c) entries
      → All (Fits c) (patch_entries (collect [] pairs) entries).0
      → patch_tcp_listen_remaps c
          (write_criu_img_header [] files_magic ++ serialize_entries c entries)
          pairs
        ≡ (ensure (none_left (patch_entries (collect [] pairs) entries).1) ports_not_found
            >> ok (
                write_criu_img_header [] files_magic
                ++ serialize_entries c (patch_entries (collect [] pairs) entries).0))
  unfolding patch_tcp_listen_remaps
  patch_tcp_listen_remaps-entries entries pairs f g =
      let bytes = write_criu_img_header [] files_magic ++ serialize_entries c entries in
      let enough : length entries < length bytes + 1 = omega (
        arith,
        length-append (write_criu_img_header [] files_magic) (serialize_entries c entries),
        length-serialize_entries c entries,
      ) in
      rw
        (
          read-write_header (serialize_entries c entries),
          patch_loop_lem (length bytes + 1) (collect [] pairs) entries
              (write_criu_img_header [] files_magic) enough f g,
        )
        refl
