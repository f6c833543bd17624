-- ===== src/Tests/Stores.antt =====
-- Instances of the theorems on the image stores, the semaphore and the patched ports.
use cedana_image_streamer.Prelude.{
  map, false, All, take-append_self, drop-append_self, pop, ◌=?=◌, ℕ, ◌+◌, ◌≡◌, refl, Bytes, Option,
  none, some, List, [], ◌∷◌, ◌++◌, length, take, drop, concat, ok, err, panic, out_of_fuel, zero,
  suc, ◌>>◌, ensure, ports_not_found, arith,
}
use cedana_image_streamer.Prelude.Map
use cedana_image_streamer.Prelude.Map.{Map}
use cedana_image_streamer.MmapBuf.{with_capacity, resize, copy_from_slice}
use cedana_image_streamer.UnixPipe.Splice.{append_to}
use cedana_image_streamer.ImageStore.Mem.{File, small, drain, write_all_from_pipe, mem_store}
use cedana_image_streamer.ImageStore.Mem.Write.{contents, IsValid, write_all_from_pipe-contents}
use cedana_image_streamer.ImageStore.Mem.Copy.{mem_store-append}
use cedana_image_streamer.ImageStore.Mem.Drain.{drain-contents, read_to_end, read_to_end-concat}
use cedana_image_streamer.ImageStore.Overlay.{OverlayStore, store_file, store_file-overlayed}
use cedana_image_streamer.Extract.Sink.{Output}
use cedana_image_streamer.Extract.Replay.{replay}
use cedana_image_streamer.Extract.Stored.{file_events, replay-file_events}
use cedana_image_streamer.Semaphore.{
  Semaphore, Reach, started, acquired, acquire, new, Reach-balanced, acquire_over_limit,
  acquire_within_limit,
}
use cedana_image_streamer.Image.{Codec, Decodes}
use cedana_image_streamer.ImagePatcher.{
  InetSk, FileEntry, collect, remove, lookup, patch_entry, none_left, files_magic,
  write_criu_img_header, patch_tcp_listen_remaps,
}
use cedana_image_streamer.ImagePatcher.Ports.{forget_port, patch_entries-forget_port}
use cedana_image_streamer.ImagePatcher.Patched.{
  serialize_entries, Fits, patch_entries, patch_tcp_listen_remaps-entries,
}
use cedana_image_streamer.Tests.Fixtures.{kernel, kernel-Progresses, write_pipe, store_ops}

abbrev bytes : Bytes
bytes = 1 ∷ 2 ∷ 3 ∷ 4 ∷ 5 ∷ 6 ∷ 7 ∷ []

-- A page of 4 bytes and chunks of 5: the file becomes a large one, and its last write spans two chunks.
write_all_from_pipe-contents_example :
    (file' : File) × (write_all_from_pipe 4 5 (small (0 ∷ [])) bytes 6 ≡ ok (file', drop 6 bytes))
    × (contents file' ≡ contents (small (0 ∷ [])) ++ take 6 bytes)
    × IsValid 4 file'
write_all_from_pipe-contents_example =
    write_all_from_pipe-contents 4 5 (omega arith) (small (0 ∷ [])) bytes 6 (omega arith)
      (omega arith)

-- The file that the bytes make, in two chunks.
abbrev written : File
written = elim (write_all_from_pipe 4 5 (small []) bytes 7) [
  | ok z ↦ z.0
  | err e ↦ small []
  | panic p ↦ small []
  | out_of_fuel ↦ small []
]

write_bytes : (mem_store 4 5).write_all_from_pipe [] (small []) bytes 7 ≡ ok ([], written, [])
unfolding write_all_from_pipe with_capacity resize copy_from_slice pop
write_bytes = refl

mem_store-append_example :
    (mem_store 4 5).write_all_from_pipe [] (small []) (bytes ++ 9 ∷ []) 7 ≡ ok ([], written, 9 ∷ [])
mem_store-append_example =
    mem_store-append 4 5 [] (small []) bytes (9 ∷ []) [] written [] write_bytes

drain-contents_example :
    drain kernel (small bytes) (write_pipe 9)
    ≡ ok (append_to (write_pipe 9) (contents (small bytes)))
drain-contents_example =
    drain-contents kernel (small bytes) (write_pipe 9) kernel-Progresses (λ n. refl)

abbrev two_slices : List Bytes
two_slices = bytes ∷ (8 ∷ []) ∷ []

read_to_end-concat_example : read_to_end 9 two_slices 3 ≡ ok (concat two_slices)
read_to_end-concat_example =
    read_to_end-concat 9 two_slices 3 (omega arith) (omega arith, (omega arith, tt)) (omega arith)

abbrev overlay : OverlayStore (Map Bytes)
overlay = record {
  underlying_store = [];
  overlayed_files = (1 ∷ [], write_pipe 9) ∷ [];
  closed = [];
}

overlay_found : Map.get (1 ∷ []) overlay.overlayed_files ≡ some (write_pipe 9)
unfolding Map.get ◌=?=◌
overlay_found = refl

store_file-overlayed_example :
    store_file kernel store_ops overlay (1 ∷ []) two_slices
    ≡ ok (record overlay {
      overlayed_files = Map.without (1 ∷ []) overlay.overlayed_files;
      closed = (1 ∷ [], append_to (write_pipe 9) (concat two_slices)) ∷ [];
    })
store_file-overlayed_example =
    store_file-overlayed kernel store_ops overlay (1 ∷ []) (write_pipe 9) two_slices
      kernel-Progresses (λ n. refl) overlay_found

abbrev three_left : Semaphore
three_left = record { count = 3; start_val = 8 }

three_left-Reach : Reach 8 (0 + 5) three_left
unfolding acquire new
three_left-Reach = acquired 0 5 (new 8) three_left started refl

Reach-balanced_example : (5 + three_left.count ≡ 8) × (three_left.start_val ≡ 8)
Reach-balanced_example = Reach-balanced 8 (0 + 5) three_left three_left-Reach

acquire_over_limit_example : acquire 9 three_left ≡ none
acquire_over_limit_example =
    acquire_over_limit 8 9 (0 + 5) three_left (omega arith) three_left-Reach

acquire_within_limit_example : acquire 3 three_left ≡ some (record three_left { count = 0 })
acquire_within_limit_example =
    acquire_within_limit 8 3 (0 + 5) three_left (omega arith) three_left-Reach

-- A plain encoding of the entries.
abbrev encode_isk : Option InetSk → Bytes → Bytes
encode_isk none other = 0 ∷ other
encode_isk (some isk) other =
    1 ∷ isk.proto ∷ isk.state ∷ isk.src_port ∷ length isk.other_fields ∷ isk.other_fields ++ other

abbrev encode_entry : FileEntry → Bytes
encode_entry entry = encode_isk entry.isk entry.other_fields

abbrev decode_entry : Bytes → Option FileEntry
decode_entry (zero ∷ rest) = some (record { isk = none; other_fields = rest })
decode_entry (suc zero ∷ proto ∷ state ∷ src_port ∷ n ∷ rest) = some (record {
  isk =
      some
        (record { proto = proto; state = state; src_port = src_port; other_fields = take n rest });
  other_fields = drop n rest;
})
decode_entry other = none

abbrev entry_codec : Codec FileEntry
entry_codec = record { encode = encode_entry; decode = decode_entry }

-- A socket that listens on 80, and a file that is none.
abbrev entries : List FileEntry
entries =
    record {
      isk = some (record { proto = 6; state = 10; src_port = 80; other_fields = [] });
      other_fields = 5 ∷ [];
    }
    ∷ record { isk = none; other_fields = 4 ∷ [] }
    ∷ []

abbrev patched : List FileEntry
patched =
    record {
      isk = some (record { proto = 6; state = 10; src_port = 8080; other_fields = [] });
      other_fields = 5 ∷ [];
    }
    ∷ record { isk = none; other_fields = 4 ∷ [] }
    ∷ []

abbrev remaps : List (ℕ × ℕ)
remaps = (80, 8080) ∷ []

decode-encode_isk :
    (isk : Option InetSk) (other : Bytes)
    → decode_entry (encode_isk isk other) ≡ some (record { isk = isk; other_fields = other })
decode-encode_isk none other = refl
decode-encode_isk (some isk) other =
    rw (take-append_self isk.other_fields other, drop-append_self isk.other_fields other)

entry_codec-Decodes : Decodes entry_codec
entry_codec-Decodes m = decode-encode_isk m.isk m.other_fields

entries-patched : patch_entries (collect [] remaps) entries ≡ (patched, [])
unfolding patch_entries collect remove lookup patch_entry
entries-patched = refl

patched-Fits : All (Fits entry_codec) (patch_entries (collect [] remaps) entries).0
patched-Fits = rw entries-patched (omega arith, (omega arith, tt))

-- Both entries fit, as they are and patched.
patch_tcp_listen_remaps-entries_example :
    patch_tcp_listen_remaps entry_codec
      (write_criu_img_header [] files_magic ++ serialize_entries entry_codec entries)
      remaps
    ≡ (ensure (none_left (patch_entries (collect [] remaps) entries).1) ports_not_found
        >> ok (
            write_criu_img_header [] files_magic
            ++ serialize_entries entry_codec (patch_entries (collect [] remaps) entries).0))
patch_tcp_listen_remaps-entries_example =
    patch_tcp_listen_remaps-entries entry_codec entry_codec-Decodes entries remaps
      (omega arith, (omega arith, tt)) patched-Fits

abbrev nothing : Output (Map File) File
nothing = record { img_store = []; img_files = []; current_img_file = none }

no_files : Map.get (1 ∷ []) nothing.img_files ≡ none
unfolding Map.get
no_files = refl

no_file : Map.get (1 ∷ []) nothing.img_store ≡ none
unfolding Map.get
no_file = refl

replay-file_events_example :
    (file : File) × (replay (mem_store 4 5) (nothing, false) (file_events (1 ∷ []) two_slices)
      ≡ ok (record nothing { img_store = Map.insert (1 ∷ []) file [] }, false))
    × (contents file ≡ concat two_slices)
replay-file_events_example =
    replay-file_events 4 5 (omega arith) nothing (1 ∷ []) two_slices refl no_files no_file

patch_entries-forget_port_example :
    map forget_port (patch_entries (collect [] remaps) entries).0 ≡ map forget_port entries
patch_entries-forget_port_example = patch_entries-forget_port (collect [] remaps) entries
