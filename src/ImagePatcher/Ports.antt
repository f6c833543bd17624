-- ===== src/ImagePatcher/Ports.antt =====
-- src/image_patcher.rs: patching changes the ports of listening sockets, and nothing else.
use cedana_image_streamer.Prelude.{
  ℕ, ◌%◌, ◌^◌, ◌≡◌, refl, ◌==◌, ◌&&◌, if◌then◌else◌, Bool-cases, Option-cases, inl, inr, Option,
  none, some, List, [], ◌∷◌, map, arith,
}
use cedana_image_streamer.ImagePatcher.{
  InetSk, FileEntry, Remaps, lookup, is_listening, patch_port, patch_isk, patch_entry,
}
use cedana_image_streamer.ImagePatcher.Patched.{patch_entries}

-- A socket with its port forgotten, if it is a TCP socket (IPPROTO_TCP is 6) in the state LISTEN (10).
unfoldable pub without_port : Option InetSk → Option InetSk
without_port none = none
without_port (some isk) =
    if isk.proto == 6 && isk.state == 10 then some (record isk { src_port = 0 }) else some isk

abbrev pub forget_port : FileEntry → FileEntry
forget_port entry = record entry { isk = without_port entry.isk }

patch_isk-forget :
    (isk : Option InetSk) (other : List ℕ) (remaps : Remaps)
    → forget_port (patch_isk (record { isk = isk; other_fields = other }) remaps isk).0
      ≡ forget_port (record { isk = isk; other_fields = other })
unfolding patch_isk patch_port is_listening without_port
patch_isk-forget none other remaps = refl
patch_isk-forget (some isk) other remaps = elim (Bool-cases (isk.proto == 6 && isk.state == 10)) [
  | inl t ↦ elim (Option-cases (lookup (isk.src_port % 2 ^ 16) remaps)) [
    | inl n ↦ ground arith
    | inr (p, e) ↦ ground arith
  ]
  | inr f ↦ ground arith
]

-- Whatever the remaps are, patching keeps the number and the order of the entries and every field of
-- each, but for the port of a TCP socket that listens.
pub patch_entries-forget_port :
    (remaps : Remaps) (entries : List FileEntry)
    → map forget_port (patch_entries remaps entries).0 ≡ map forget_port entries
unfolding patch_entries patch_entry
patch_entries-forget_port remaps [] = refl
patch_entries-forget_port remaps (entry ∷ entries) = rw (
  patch_isk-forget entry.isk entry.other_fields remaps,
  patch_entries-forget_port (patch_isk entry remaps entry.isk).1 entries,
)
