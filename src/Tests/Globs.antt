-- ===== src/Tests/Globs.antt =====
-- Instances of the theorems on file lists and on the patched files.img.
use cedana_image_streamer.Prelude.{
  ℕ, ◌≡◌, ◌≢◌, refl, ◌==◌, ◌++◌, if◌then◌else◌, Bool, false, Bytes, Text, All, ◌||◌, codes, Option,
  none, some, List, [], ◌∷◌, map, concat, select, ok, arith,
}
use cedana_image_streamer.Image.{Codec}
use cedana_image_streamer.Util.Filter.{filter_files}
use cedana_image_streamer.Util.Glob.{
  Token, any_run, any_one, literal, Denotes, ends, run, one, escaped, plain, is_metacharacter,
  is_quantified, match_tokens, matches, matches_line, token, IsLine, IsRegex, filter_files-select,
}
use cedana_image_streamer.Util.{read_bytes_next, put_u32_le, get_u32_le, pb_read_next}
use cedana_image_streamer.ImagePatcher.{
  FileEntry, read_criu_img_header, write_criu_img_header, patch_tcp_listen_remaps,
}
use cedana_image_streamer.ImagePatcher.Repack.{patch_img, patch_img-whole}
use cedana_image_streamer.MmapBuf.{MmapBuf, deref, overwrite}
use cedana_image_streamer.MmapBuf.Laws.{grown, empty_buf}
use cedana_image_streamer.ImageStore.Parallel.{eof, content}

abbrev has_char : ℕ → Text → Bool
has_char c [] = false
has_char c (x ∷ xs) = x == c || has_char c xs

-- A parser for the expressions that `filter_files` builds.
abbrev push : Token → Option (List Token) → Option (List Token)
push t none = none
push t (some ts) = some (t ∷ ts)

-- A parsed expression, with what starts behind a dot.
unfoldable parse : Bytes → Option (List Token)
parse [] = none
parse (c ∷ []) = if c == 36 then some [] else none
parse (c ∷ d ∷ r) =
    let later = parse r in
    let next = parse (d ∷ r) in
    if c == 46
    then (if d == 42 then push any_run later else push any_one next)
    else (if c == 92 then push (literal d) later else push (literal c) next)

abbrev compile : Option (List Token) → Option (Bytes → Bool)
compile none = none
compile (some ts) = some (matches_line ts)

abbrev regex : Bytes → Option (Bytes → Bool)
regex [] = none
regex (c ∷ r) = compile (parse r)

not_empty : (r : Bytes) (ts : List Token) → Denotes r ts → r ≢ []
not_empty _ _ ends e = cc
not_empty _ _ (run r ts q d) e = cc
not_empty _ _ (one r ts q d) e = cc
not_empty _ _ (escaped c r ts m q d) e = cc
not_empty _ _ (plain c r ts m q d) e = cc

parse-one :
    (r : Bytes) (ts : List Token)
    → is_quantified r ≡ false
    → r ≢ []
    → parse r ≡ some ts
    → parse (46 ∷ r) ≡ some (any_one ∷ ts)
unfolding parse
parse-one [] ts q n e = absurd (n refl)
parse-one (d ∷ r) ts q n e = let f : (d == 42) ≡ false = ground arith in rw (f, e) refl

parse-plain :
    (c : ℕ) (r : Bytes) (ts : List Token)
    → is_metacharacter c ≡ false
    → r ≢ []
    → parse r ≡ some ts
    → parse (c ∷ r) ≡ some (literal c ∷ ts)
unfolding parse
parse-plain c [] ts m n e = absurd (n refl)
parse-plain c (d ∷ r) ts m n e =
    let f : (c == 46) ≡ false = ground arith in
    let g : (c == 92) ≡ false = ground arith in rw (f, g, e) refl

parse-Denotes : (r : Bytes) (ts : List Token) → Denotes r ts → parse r ≡ some ts
unfolding parse
parse-Denotes _ _ ends = refl
parse-Denotes _ _ (run r ts q d) = rw (parse-Denotes r ts d) refl
parse-Denotes _ _ (one r ts q d) = parse-one r ts q (not_empty r ts d) (parse-Denotes r ts d)
parse-Denotes _ _ (escaped c r ts m q d) = rw (parse-Denotes r ts d) refl
parse-Denotes _ _ (plain c r ts m q d) =
    parse-plain c r ts m (not_empty r ts d) (parse-Denotes r ts d)

regex-IsRegex : IsRegex regex
regex-IsRegex r ts d = (matches_line ts, rw (parse-Denotes r ts d) refl, λ text. refl)

abbrev files : List Bytes
files = codes "core-1.img" ∷ codes "core-1ximg" ∷ codes "pages-1.img" ∷ []

one-IsLine : (text : Text) → (has_char 10 text) ≡ false → IsLine text
one-IsLine [] h = tt
one-IsLine (c ∷ cs) h = (ground arith, one-IsLine cs (ground arith))

files-IsLine : All IsLine files
files-IsLine = (
  one-IsLine (codes "core-1.img") refl,
  (one-IsLine (codes "core-1ximg") refl, (one-IsLine (codes "pages-1.img") refl, tt)),
)

filter_files-select_example :
    filter_files regex files (codes "core-*.img")
    ≡ select (matches (map token (codes "core-*.img"))) files
filter_files-select_example =
    filter_files-select regex files (codes "core-*.img") regex-IsRegex (λ e. cc) files-IsLine

-- The dot of the pattern is no wildcard.
listed : filter_files regex files (codes "core-*.img") ≡ codes "core-1.img" ∷ []
unfolding match_tokens
listed = filter_files-select_example

abbrev header : Bytes
header = 25 ∷ 67 ∷ 86 ∷ 84 ∷ 56 ∷ 49 ∷ 48 ∷ 86 ∷ []

abbrev entry_codec : Codec FileEntry
entry_codec = record {
  encode = λ entry. entry.other_fields;
  decode = λ bytes. some (record { isk = none; other_fields = bytes });
}

abbrev chunk : MmapBuf
chunk = grown (empty_buf 8) header

chunk-patched : patch_tcp_listen_remaps entry_codec (concat (map deref (chunk ∷ []))) [] ≡ ok header
unfolding patch_tcp_listen_remaps deref overwrite read_bytes_next put_u32_le get_u32_le pb_read_next
    read_criu_img_header write_criu_img_header
chunk-patched = refl

patch_img-whole_example :
    (new_chunk : MmapBuf) × (patch_img entry_codec (map content (chunk ∷ []) ++ eof ∷ []) []
      ≡ ok (content new_chunk ∷ eof ∷ []))
    × (deref new_chunk ≡ header)
patch_img-whole_example =
    patch_img-whole entry_codec (chunk ∷ []) [] [] header chunk-patched (omega arith)
