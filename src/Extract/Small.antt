-- ===== src/Extract/Small.antt =====
-- src/extract.rs, `drain_small_file_shard`: the shard of the small files, read to its end.
use cedana_image_streamer.Prelude.{
  ℕ, zero, suc, ◌+◌, ◌≤◌, ◌<◌, ◌≡◌, refl, ap, ◌∙◌, sym, ◌==◌, if◌then◌else◌, Bool-cases, inl, inr,
  true, false, Bytes, ◌=?=◌, Option, none, some, List, [], ◌∷◌, ◌++◌, map, length, length-append,
  take-append_self, drop-append_self, append_assoc, All, Result, ok, err, ◌>>=◌, >>=-eq-ok,
  ok-injective, subst, arith, unexpected_file_data, unexpected_file_eof, malformed_marker,
}
use cedana_image_streamer.Image.{Body, filename, file_data, file_eof, image_eof}
use cedana_image_streamer.System.{System, Laws}
use cedana_image_streamer.Util.{frame, pb_read_next}
use cedana_image_streamer.Util.RoundTrip.{pb_read_next-frame, pb_read_next-nil, length-frame}
use cedana_image_streamer.Util.Files.{metadata_file}
use cedana_image_streamer.ImageStore.{ImageStore}
use cedana_image_streamer.Stream.{Piece, Event, event, serialize, IsNumbered, Fits}
use cedana_image_streamer.Extract.{
  Shard, ImageDeserializer, parse_metadata, small_file_data, small_file_eof, process_small_body,
  process_small_file_marker, small_loop, take_metadata, drain_small_file_shard,
}
use cedana_image_streamer.Extract.Sink.{Output, select_img_file, write_current, finish_current}
use cedana_image_streamer.Extract.Replay.{IsSized, TakesExactly}

module _ {Store File : Type 0} (sys : System) (ops : ImageStore Store File) where
  -- The list of the files that was found, and the files.
  abbrev pub Noted : Type 0
  Noted = Option (List Bytes) × Output Store File

  -- The data of a small file: that of metadata.json is the list of the files, in JSON.
  unfoldable pub note_data : Noted → Bytes → ℕ → Option (Bytes × File) → Result Noted
  note_data (names, o) payload size none = err unexpected_file_data
  note_data (names, o) payload size (some (name, file)) =
      if name =?= metadata_file
      then (parse_metadata sys ops (sys.from_json payload) >>= λ found. ok (some found, o))
      else (write_current ops o payload size (some (name, file)) >>= λ z. ok (names, z.0))

  unfoldable pub note_eof : Noted → Option (Bytes × File) → Result Noted
  note_eof (names, o) none = err unexpected_file_eof
  note_eof (names, o) (some (name, file)) =
      if name =?= metadata_file
      then ok (names, record o { current_img_file = none })
      else (finish_current ops o (some (name, file)) >>= λ o'. ok (names, o'))

  -- One event of a small file.
  unfoldable pub note : Noted → Option Body → Bytes → Result Noted
  unfolding note_data note_eof
  note (names, o) (some (filename name)) payload = do
    o' ← select_img_file ops o name
    ok (names, o')
  note (names, o) (some (file_data size)) payload =
      note_data (names, o) payload size o.current_img_file
  note (names, o) (some (file_eof true)) payload = note_eof (names, o) o.current_img_file
  note (names, o) (some (file_eof false)) payload = err malformed_marker
  note (names, o) (some (image_eof b)) payload = err malformed_marker
  note (names, o) none payload = err malformed_marker

  -- What the extraction is meant to do with the small files: to take their events one after the other.
  unfoldable pub note_all : Noted → List Event → Result Noted
  note_all z [] = ok z
  note_all z ((body, payload) ∷ es) = do z' ← note z body payload; note_all z' es

  abbrev noted : ImageDeserializer Store File → Shard → Noted → ImageDeserializer Store File
  noted d shard z = record d { small_file_shard = shard; metadata = z.0; output = z.1 }

  -- The step leaves `rest` in the shard, and goes to `z`.
  abbrev Takes :
      ImageDeserializer Store File → Result (ImageDeserializer Store File) → Bytes → Noted → Type 0
  Takes d step rest z =
      (shard : Shard) × (shard.pipe.content ≡ rest) × (step ≡ ok (noted d shard z))

  write_current-append :
      (law : TakesExactly ops) (o o' : Output Store File) (payload rest left : Bytes)
      (current : Option (Bytes × File))
      → write_current ops o payload (length payload) current ≡ ok (o', left)
      → write_current ops o (payload ++ rest) (length payload) current ≡ ok (o', rest)
  unfolding write_current
  write_current-append law o o' payload rest left none e = cc
  write_current-append law o o' payload rest left (some (name, file)) e =
      let ((store, file', l), e1, e2) =
        >>=-eq-ok (ops.write_all_from_pipe o.img_store file payload (length payload)) _ e in
      let q : record o { img_store = store; current_img_file = some (name, file') } ≡ o' =
        ap (λ (z : Output Store File × Bytes). z.0) (ok-injective e2) in
      rw (law o.img_store file payload rest store file' l e1, ← q) refl

  module _ (law : TakesExactly ops) (d : ImageDeserializer Store File) (payload rest : Bytes)
      (z : Noted) (there : d.small_file_shard.pipe.content ≡ payload ++ rest) where
    abbrev behind : Shard
    behind = record d.small_file_shard {
      pipe = record d.small_file_shard.pipe { content = rest };
      bytes_read = d.small_file_shard.bytes_read + length payload;
    }

    small_file_data-Takes :
        (current : Option (Bytes × File))
        → note_data (d.metadata, d.output) payload (length payload) current ≡ ok z
        → Takes d (small_file_data sys ops d (length payload) current) rest z
    unfolding small_file_data note_data
    small_file_data-Takes none e = cc
    small_file_data-Takes (some (name, file)) e = elim (Bool-cases (name =?= metadata_file)) [
      | inl t ↦
          let (found, e1, e2) =
            >>=-eq-ok (parse_metadata sys ops (sys.from_json payload)) _ (rw (note_data, t) at e) in
          (
            behind,
            refl,
            rw
                (
                  small_file_data,
                  t,
                  there,
                  take-append_self payload rest,
                  drop-append_self payload rest,
                  e1,
                )
                (ap (λ (y : Noted). ok (noted d behind y)) (ok-injective e2)),
          )
      | inr f ↦
          let ((o', left), e1, e2) =
            >>=-eq-ok (write_current ops d.output payload (length payload) (some (name, file))) _
              (rw (note_data, f) at e) in
          (
            behind,
            refl,
            rw
                (
                  small_file_data,
                  f,
                  there,
                  write_current-append law d.output o' payload rest left (some (name, file)) e1,
                )
                (ap (λ (y : Noted). ok (noted d behind y)) (ok-injective e2)),
          )
    ]

    small_file_eof-Takes :
        payload ≡ []
        → (current : Option (Bytes × File)) → note_eof (d.metadata, d.output) current ≡ ok z
        → Takes d (small_file_eof sys ops d current) rest z
    unfolding small_file_eof note_eof
    small_file_eof-Takes p none e = cc
    small_file_eof-Takes p (some (name, file)) e = elim (Bool-cases (name =?= metadata_file)) [
      | inl t ↦ (
        d.small_file_shard,
        there ∙ rw p refl,
        rw (small_file_eof, t)
            (ap (λ (y : Noted). ok (noted d d.small_file_shard y))
              (ok-injective (rw (note_eof, t) at e))),
      )
      | inr f ↦
          let (o', e1, e2) =
            >>=-eq-ok (finish_current ops d.output (some (name, file))) _ (rw (note_eof, f) at e) in
          (
            d.small_file_shard,
            there ∙ rw p refl,
            rw (small_file_eof, f, e1)
                (ap (λ (y : Noted). ok (noted d d.small_file_shard y)) (ok-injective e2)),
          )
    ]

    process_small_body-Takes :
        (body : Option Body)
        → IsSized body payload
        → note (d.metadata, d.output) body payload ≡ ok z
        → Takes d (process_small_body sys ops d body) rest z
    unfolding process_small_body note
    process_small_body-Takes (some (filename name)) p e =
        let (o', e1, e2) = >>=-eq-ok (select_img_file ops d.output name) _ e in
        (
          d.small_file_shard,
          there ∙ rw p refl,
          rw e1 (ap (λ (y : Noted). ok (noted d d.small_file_shard y)) (ok-injective e2)),
        )
    process_small_body-Takes (some (file_data size)) p e =
        subst (λ (n : ℕ). Takes d (small_file_data sys ops d n d.output.current_img_file) rest z)
          (sym p)
          (small_file_data-Takes d.output.current_img_file (
            subst
              (λ (n : ℕ).
                note_data (d.metadata, d.output) payload n d.output.current_img_file ≡ ok z)
              p e))
    process_small_body-Takes (some (file_eof true)) p e =
        small_file_eof-Takes p d.output.current_img_file e
    process_small_body-Takes (some (file_eof false)) p e = cc
    process_small_body-Takes (some (image_eof b)) p e = cc
    process_small_body-Takes none p e = cc

  abbrev at_end : ImageDeserializer Store File → Shard → ℕ → Noted → ImageDeserializer Store File
  at_end d shard n z = record d {
    small_file_shard = shard;
    small_file_seq = d.small_file_seq + n;
    metadata = z.0;
    output = z.1;
  }

  small_loop-Takes :
      (laws : Laws sys) (law : TakesExactly ops) (fuel : ℕ) (d : ImageDeserializer Store File)
      (pieces : List Piece) (z : Noted)
      → length pieces < fuel
      → d.small_file_shard.pipe.content ≡ serialize sys.codec pieces
      → IsNumbered d.small_file_seq pieces
      → All (Fits sys.codec) pieces
      → All (λ p. IsSized p.marker.body p.payload) pieces
      → note_all (d.metadata, d.output) (map event pieces) ≡ ok z
      → (shard : Shard) × (shard.pipe.content ≡ [])
        × (small_loop sys ops fuel d ≡ ok (at_end d shard (length pieces) z))
  unfolding small_loop note_all process_small_file_marker
  small_loop-Takes laws law zero d pieces z f c n fits sized e = absurd (omega arith)
  small_loop-Takes laws law (suc fuel) d [] z f c n fits sized e =
      let m : d.small_file_seq + 0 ≡ d.small_file_seq = omega arith in
      let r : pb_read_next sys.codec d.small_file_shard.pipe.content ≡ ok (none, []) =
        rw c (pb_read_next-nil sys.codec) in
      (
        d.small_file_shard,
        c,
        rw (small_loop, r, m)
            (ap (λ (y : Noted). ok (noted d d.small_file_shard y)) (ok-injective e)),
      )
  small_loop-Takes laws law (suc fuel) d (p ∷ ps) z f c n fits sized e =
      let size = length (frame sys.codec p.marker) in
      let shard = d.small_file_shard in
      let d1 : ImageDeserializer Store File = record d {
        small_file_shard = record shard {
          pipe = record shard.pipe { content = p.payload ++ serialize sys.codec ps };
          bytes_read = shard.bytes_read + size;
        };
      } in
      let (z1, e1, e2) = >>=-eq-ok (note (d.metadata, d.output) p.marker.body p.payload) _ e in
      let (s1, c1, r1) =
        process_small_body-Takes law d1 p.payload (serialize sys.codec ps) z1 refl p.marker.body
          sized.0 e1 in
      let d2 : ImageDeserializer Store File = record (noted d1 s1 z1) {
        small_file_seq = d.small_file_seq + 1;
      } in
      let (s2, c2, r2) =
        small_loop-Takes laws law fuel d2 ps z (omega arith) c1
          (let k : d.small_file_seq + 1 ≡ suc d.small_file_seq = omega arith in rw k n.1) fits.1
          sized.1 e2 in
      let r : pb_read_next sys.codec d.small_file_shard.pipe.content
          ≡ ok (some (p.marker, size), p.payload ++ serialize sys.codec ps) =
        rw (c ∙ append_assoc (frame sys.codec p.marker) p.payload (serialize sys.codec ps)) (
          pb_read_next-frame sys.codec p.marker (p.payload ++ serialize sys.codec ps) laws.decodes
            fits.0) in
      let t : (p.marker.seq == d.small_file_seq) ≡ true = ground (arith, n.0) in
      let k : d.small_file_seq + 1 + length ps ≡ d.small_file_seq + suc (length ps) = omega arith in
      (s2, c2, rw (small_loop, r, process_small_file_marker, t, r1) (r2 ∙ rw k refl))

  length-serialize : (pieces : List Piece) → length pieces ≤ length (serialize sys.codec pieces)
  length-serialize [] = omega arith
  length-serialize (p ∷ ps) = omega (
    arith,
    length-serialize ps,
    length-frame sys.codec p.marker,
    length-append (frame sys.codec p.marker ++ p.payload) (serialize sys.codec ps),
    length-append (frame sys.codec p.marker) p.payload,
  )

  -- Let the store take exactly the bytes that it is told to take (`TakesExactly`), and let the outside
  -- keep its laws (`Laws`). Let the shard of the small files hold pieces that are numbered from the
  -- deserializer's count, fit in messages and say how much data follows, and let their events, taken one
  -- after the other, succeed and find the list of the files. Then reading the shard ends without an error,
  -- answers that list, hands the files to the store as the events do, leaves the shard empty, and touches
  -- nothing of the other shards.
  pub drain_small_file_shard-note_all :
      (laws : Laws sys) (law : TakesExactly ops) (d : ImageDeserializer Store File)
      (pieces : List Piece) (names : List Bytes) (o' : Output Store File)
      → d.small_file_shard.pipe.content ≡ serialize sys.codec pieces
      → IsNumbered d.small_file_seq pieces
      → All (Fits sys.codec) pieces
      → All (λ p. IsSized p.marker.body p.payload) pieces
      → note_all (d.metadata, d.output) (map event pieces) ≡ ok (some names, o')
      → (shard : Shard) × (shard.pipe.content ≡ [])
        × (drain_small_file_shard sys ops d
            ≡ ok (
              names,
              record d {
                small_file_shard = shard;
                small_file_seq = d.small_file_seq + length pieces;
                metadata = none;
                output = o';
              },
            ))
  unfolding drain_small_file_shard take_metadata
  drain_small_file_shard-note_all laws law d pieces names o' c n fits sized e =
      let enough : length pieces < length d.small_file_shard.pipe.content + 1 =
        omega (arith, length-serialize pieces, ap length c) in
      let (shard, left, r) =
        small_loop-Takes laws law (length d.small_file_shard.pipe.content + 1) d pieces
          (some names, o') enough c n fits sized e in
      (shard, left, rw r refl)
