-- ===== src/ImagePatcher.antt =====
-- src/image_patcher.rs: the TCP listening ports in CRIU's files.img, patched while an image is served.
--
-- The message criu::FileEntry comes from CRIU's protobuf files: the fields that the program looks at are
-- modelled, the others are kept as they are (`other_fields`), and its bytes are the work of the protobuf
-- library.
pub mod Patched
pub mod Ports
pub mod Repack
use cedana_image_streamer.Prelude.{
  ℕ, zero, suc, ◌+◌, ◌*◌, ◌%◌, ◌^◌, ◌==◌, if◌then◌else◌, Bool, ◌&&◌, Bytes, Option, none, some,
  List, [], ◌∷◌, ◌++◌, length, Result, ok, err, out_of_fuel, ◌>>=◌, ◌>>◌, ensure, no_header,
  corrupted_header, ports_not_found,
}
use cedana_image_streamer.Image.{Codec}
use cedana_image_streamer.Util.{read_bytes_next, put_u32_le, get_u32_le, pb_read_next, pb_write}

abbrev pub img_common_magic : ℕ
img_common_magic = 1414939417

abbrev pub files_magic : ℕ
files_magic = 1445998904

abbrev pub tcp_listen : ℕ
tcp_listen = 10

-- libc::IPPROTO_TCP
abbrev pub ipproto_tcp : ℕ
ipproto_tcp = 6

-- criu::InetSkEntry
pub record InetSk : Type 0 where
  pub proto : ℕ
  pub state : ℕ
  pub src_port : ℕ
  pub other_fields : Bytes

-- criu::FileEntry
pub record FileEntry : Type 0 where
  pub isk : Option InetSk
  pub other_fields : Bytes

-- HashMap<u16, u16>
abbrev pub Remaps : Type 0
Remaps = List (ℕ × ℕ)

unfoldable pub lookup : ℕ → Remaps → Option ℕ
lookup port [] = none
lookup port ((old_port, new_port) ∷ remaps) =
    if old_port == port then some new_port else lookup port remaps

unfoldable pub remove : ℕ → Remaps → Remaps
remove port [] = []
remove port ((old_port, new_port) ∷ remaps) =
    let rest = remove port remaps in if old_port == port then rest else (old_port, new_port) ∷ rest

-- `tcp_listen_remaps.into_iter().collect()`: a later pair replaces an earlier one with the same port.
unfoldable pub collect : Remaps → List (ℕ × ℕ) → Remaps
unfolding remove
collect remaps [] = remaps
collect remaps ((old_port, new_port) ∷ pairs) =
    collect ((old_port, new_port) ∷ remove old_port remaps) pairs

-- `read_criu_img_header`: what is left behind the header.
unfoldable pub check_header : ℕ → Option Bytes → Bytes → Result Bytes
unfolding get_u32_le
check_header expected none rest = err no_header
check_header expected (some header) rest = do
  let (common, header') = get_u32_le header
  let (magic, header'') = get_u32_le header'
  ensure (common == img_common_magic && magic == expected) corrupted_header
  ok rest

unfoldable pub read_criu_img_header : Bytes → ℕ → Result Bytes
unfolding check_header
read_criu_img_header reader expected_header_magic = do
  (header, rest) ← read_bytes_next reader (2 * 4)
  check_header expected_header_magic header rest

unfoldable pub write_criu_img_header : Bytes → ℕ → Bytes
unfolding put_u32_le
write_criu_img_header writer header_magic =
    writer ++ put_u32_le img_common_magic ++ put_u32_le header_magic

abbrev pub is_listening : InetSk → Bool
is_listening isk = isk.proto == ipproto_tcp && isk.state == tcp_listen

unfoldable pub patch_port : FileEntry → InetSk → Remaps → Option ℕ → FileEntry × Remaps
unfolding remove
patch_port entry isk remaps none = (entry, remaps)
patch_port entry isk remaps (some new_port) = (
  record entry { isk = some (record isk { src_port = new_port }) },
  remove (isk.src_port % 2 ^ 16) remaps,
)

-- The body of the loop: the entry, and the remaps that are left.
unfoldable pub patch_isk : FileEntry → Remaps → Option InetSk → FileEntry × Remaps
unfolding patch_port
patch_isk entry remaps none = (entry, remaps)
patch_isk entry remaps (some isk) =
    if is_listening isk
    then patch_port entry isk remaps (lookup (isk.src_port % 2 ^ 16) remaps)
    else (entry, remaps)

unfoldable pub patch_entry : Remaps → FileEntry → FileEntry × Remaps
unfolding patch_isk
patch_entry remaps entry = patch_isk entry remaps entry.isk

-- `Write for Vec<u8>`
abbrev pub extend : Bytes → Bytes → Result Bytes
extend out bytes = ok (out ++ bytes)

abbrev pub none_left : Remaps → Bool
none_left [] = Bool.true
none_left (x ∷ xs) = Bool.false

module _ (c : Codec FileEntry) where
  -- The loop over the entries: each round reads four bytes at least.
  unfoldable pub patch_loop : ℕ → Bytes → Remaps → Bytes → Result (Bytes × Remaps)
  unfolding patch_entry
  patch_loop zero cursor remaps new_data = out_of_fuel
  patch_loop (suc fuel) cursor remaps new_data = do
    (found, rest) ← pb_read_next c cursor
    let go = λ (entry : FileEntry).
        let (entry', remaps') = patch_entry remaps entry in
        pb_write c extend new_data entry' >>= λ z. patch_loop fuel rest remaps' z.0
    elim found [ none ↦ ok (new_data, remaps) | some z ↦ go z.0 ]

  unfoldable pub patch_tcp_listen_remaps : Bytes → List (ℕ × ℕ) → Result Bytes
  unfolding patch_loop collect
  patch_tcp_listen_remaps bytes pairs = do
    cursor ← read_criu_img_header bytes files_magic
    (new_data, left) ←
        patch_loop (length bytes + 1) cursor (collect [] pairs)
          (write_criu_img_header [] files_magic)
    ensure (none_left left) ports_not_found
    ok new_data
