-- ===== src/Util/Files.antt =====
-- src/util.rs: which files go to the shard of the small files.
use cedana_image_streamer.Prelude.{
  ◌==◌, ◌=?=◌, if◌then◌else◌, Bool, true, false, ◌&&◌, ◌||◌, Bytes, codes, [], ◌∷◌,
}

-- `str::starts_with` and `str::contains`
unfoldable pub starts_with : Bytes → Bytes → Bool
starts_with text [] = true
starts_with [] (p ∷ ps) = false
starts_with (t ∷ ts) (p ∷ ps) = (t == p) && starts_with ts ps

unfoldable pub contains : Bytes → Bytes → Bool
unfolding starts_with
contains [] part = starts_with [] part
contains (t ∷ ts) part = starts_with (t ∷ ts) part || contains ts part

abbrev pub metadata_file : Bytes
metadata_file = codes "metadata.json"

-- The regular expressions of `is_small_file`.
abbrev pub rw_layer_regex : Bytes
rw_layer_regex = codes "^rw-layer-[0-9]+\\.img$"

abbrev pub pages_regex : Bytes
pages_regex = codes "^pages-[0-9]+\\.img$"

abbrev pub ghost_file_regex : Bytes
ghost_file_regex = codes "^ghost-file-[0-9]+\\.img$"

abbrev pub tcp_stream_regex : Bytes
tcp_stream_regex = codes "^tcp-stream-.*\\.img$"

-- The `match` of `is_small_file`, arm by arm. `is_match` is that of the regex library.
unfoldable pub is_small_file : (Bytes → Bytes → Bool) → Bytes → Bool
unfolding starts_with contains
is_small_file is_match file =
    if file =?= codes "process_state.json"
    then true
    else if file =?= codes "rw-layer.manifest"
    then true
    else if file =?= codes "runc.netns_eth0_ipv4addr"
    then true
    else if contains file (codes "gpu") && contains file (codes "size")
    then true
    else if starts_with file (codes "gpu-noctx-calls-")
    then true
    else if is_match rw_layer_regex file
    then false
    else if is_match pages_regex file
    then false
    else if is_match ghost_file_regex file
    then false
    else if is_match tcp_stream_regex file
    then false
    else if starts_with file (codes "gpu-calls-")
    then false
    else if starts_with file (codes "gpu-mem-")
    then false
    else if starts_with file (codes "gpu-ctx-")
    then false
    else if starts_with file (codes "gpu-hostmem-")
    then false
    else if starts_with file (codes "gpu-ctxshm-")
    then false
    else if starts_with file (codes "gpu-virtmem-")
    then false
    else if starts_with file (codes "gpu-envvars-")
    then false
    else true
