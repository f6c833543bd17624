-- ===== src/Capture/Finish.antt =====
-- src/capture.rs, `write_image_eof`: the list of the files that were seen, and the end of the image.
use cedana_image_streamer.Prelude.{
  ℕ, ◌+◌, ◌%◌, ◌^◌, ◌≡◌, ap, ◌∙◌, sym, Bytes, Option, none, some, List, [], ◌∷◌, ◌++◌, length,
  take_all, map, append_assoc, ok, >>=-eq-ok, ok-injective, arith, subst, true, false,
}
use cedana_image_streamer.Image.{filename, file_data, file_eof, image_eof}
use cedana_image_streamer.System.{System}
use cedana_image_streamer.Stream.{Piece, Event, event}
use cedana_image_streamer.Util.{pb_write}
use cedana_image_streamer.Util.RoundTrip.{pb_write-eq-ok}
use cedana_image_streamer.Util.Files.{metadata_file}
use cedana_image_streamer.UnixPipe.{WritePipe, write_all}
use cedana_image_streamer.UnixPipe.Splice.{Wrote-append, write_all-Wrote}
use cedana_image_streamer.Capture.{
  ImageSerializer, json_or_fail, put, write_metadata_to_small_shard, write_image_eof,
}
use cedana_image_streamer.Capture.Log.{
  IsLogged, next_piece, small_grown, put-IsLogged-small, put-IsLogged-big,
}

json_or_fail-eq-ok :
    (json : Option Bytes) (bytes : Bytes) → json_or_fail json ≡ ok bytes → json ≡ some bytes
unfolding json_or_fail
json_or_fail-eq-ok none bytes e = cc
json_or_fail-eq-ok (some json) bytes e = ap some (ok-injective e)

-- The metadata file as events: its name, the list of the files in JSON, its end.
abbrev pub metadata_events : Bytes → List Event
metadata_events json =
    (some (filename metadata_file), [])
    ∷ (some (file_data (length json % 2 ^ 32)), json)
    ∷ (some (file_eof true), [])
    ∷ []

module _ (sys : System) where
  -- What the end of the image adds: the metadata file to the log of the small files, and the end marker to
  -- the other one.
  abbrev pub Finished : ImageSerializer → List Piece → List Piece → ImageSerializer → Type 0
  Finished s small big s' =
      (json : Bytes) × (ps : List Piece) × (p : Piece) × (sys.to_json s.metadata ≡ some json)
      × (map event ps ≡ metadata_events json)
      × (event p ≡ (some (image_eof true), []))
      × IsLogged sys s' (small ++ ps) (big ++ p ∷ [])

  -- The data of the metadata file goes to the small files' shard without `write_chunk`.
  direct_write :
      (s : ImageSerializer) (small big : List Piece) (json : Bytes) (pipe pipe' : WritePipe) (n : ℕ)
      → IsLogged sys s small big
      → pb_write sys.codec write_all s.small_file_shard.pipe
          (record { seq = s.small_file_seq; body = some (file_data (length json % 2 ^ 32)) })
        ≡ ok (pipe, n)
      → write_all pipe json ≡ ok pipe'
      → IsLogged sys
          (record s {
            small_file_seq = s.small_file_seq + 1;
            small_file_shard = record s.small_file_shard {
              pipe = pipe';
              bytes_written = s.small_file_shard.bytes_written + (length json + n);
            };
          })
          (small
            ++ next_piece 0 s.small_file_seq
                (file_data (length json % 2 ^ 32))
                (some (json, length json))
              ∷ [])
          big
  direct_write s small big json pipe pipe' n v e1 e2 =
      let (fits, w, m) = pb_write-eq-ok sys.codec write_all s.small_file_shard.pipe _ pipe n e1 in
      small_grown sys s (file_data (length json % 2 ^ 32)) (some (json, length json)) small big v
        (record s.small_file_shard {
          pipe = pipe';
          bytes_written = s.small_file_shard.bytes_written + (length json + n);
        })
        s.current_file_size
        (rw (take_all (length json) json (omega arith)) (
          Wrote-append (write_all-Wrote s.small_file_shard.pipe _ pipe w)
            (write_all-Wrote pipe json pipe' e2)))
        fits

  metadata-Logged :
      (s : ImageSerializer) (small big : List Piece) (s' : ImageSerializer)
      → IsLogged sys s small big
      → write_metadata_to_small_shard sys s ≡ ok s'
      → (json : Bytes) × (ps : List Piece) × (sys.to_json s.metadata ≡ some json)
        × (map event ps ≡ metadata_events json)
        × IsLogged sys s' (small ++ ps) big
  unfolding write_metadata_to_small_shard
  metadata-Logged s small big s' v e =
      let ((s1, l1), e1, r1) = >>=-eq-ok (put sys s (filename metadata_file) none true) _ e in
      let (json, e2, r2) = >>=-eq-ok (json_or_fail (sys.to_json s1.metadata)) _ r1 in
      let ((pipe, n), e3, r3) =
        >>=-eq-ok
          (pb_write sys.codec write_all s1.small_file_shard.pipe
            (record { seq = s1.small_file_seq; body = some (file_data (length json % 2 ^ 32)) }))
          _ r2 in
      let (pipe', e4, r4) = >>=-eq-ok (write_all pipe json) _ r3 in
      let ((s3, l3), e5, r5) = >>=-eq-ok (put sys _ (file_eof true) none true) _ r4 in
      let (p1, q1, v1, k1, l1_eq, w1) =
        put-IsLogged-small sys s (filename metadata_file) none small big v s1 l1 e1 in
      let v2 = direct_write s1 (small ++ p1 ∷ []) big json pipe pipe' n v1 e3 e4 in
      let (p3, q3, v3, k3, l3_eq, w3) =
        put-IsLogged-small sys _ (file_eof true) none _ big v2 s3 l3 e5 in
      let p2 : Piece =
        next_piece 0 s1.small_file_seq (file_data (length json % 2 ^ 32))
          (some (json, length json)) in
      (
        json,
        p1 ∷ p2 ∷ p3 ∷ [],
        ap sys.to_json (sym k1.metadata) ∙ json_or_fail-eq-ok (sys.to_json s1.metadata) json e2,
        rw (q1, q3, take_all (length json) json (omega arith)),
        subst (λ (t : ImageSerializer). IsLogged sys t (small ++ p1 ∷ p2 ∷ p3 ∷ []) big)
            (ok-injective r5)
            (subst (λ (l : List Piece). IsLogged sys s3 l big)
              (append_assoc (small ++ p1 ∷ []) (p2 ∷ []) (p3 ∷ [])
                ∙ append_assoc small (p1 ∷ []) (p2 ∷ p3 ∷ []))
              v3),
      )

  -- An end of the image that succeeds has written the metadata file, that is its name, the list of the
  -- files seen in JSON and its end, to the log of the small files, and the end marker to the other log.
  pub write_image_eof-Finished :
      (s : ImageSerializer) (small big : List Piece) (s' : ImageSerializer)
      → IsLogged sys s small big
      → write_image_eof sys s ≡ ok s'
      → Finished s small big s'
  unfolding write_image_eof
  write_image_eof-Finished s small big s' v e =
      let (s1, e1, r1) = >>=-eq-ok (write_metadata_to_small_shard sys s) _ e in
      let ((s2, l2), e2, r2) = >>=-eq-ok (put sys s1 (image_eof true) none false) _ r1 in
      let (json, ps, j, q, v1) = metadata-Logged s small big s1 v e1 in
      let (p, q2, v2, k2, l2_eq, w2) =
        put-IsLogged-big sys s1 (image_eof true) none _ big v1 s2 l2 e2 in
      (
        json,
        ps,
        p,
        j,
        q,
        q2,
        subst (λ (t : ImageSerializer). IsLogged sys t (small ++ ps) (big ++ p ∷ []))
            (ok-injective r2) v2,
      )
