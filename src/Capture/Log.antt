-- ===== src/Capture/Log.antt =====
-- The streams that the serializer has written are those of two logs of pieces: one for the small
-- files, on the first shard, and one for the others, spread over the other shards.
use cedana_image_streamer.Prelude.{
  ℕ, ◌+◌, ◌*◌, ◌<◌, ◌≤◌, ◌≡◌, ◌≢◌, refl, ap, ◌∙◌, sym, Bytes, Option, some, List, [], ◌∷◌, ◌++◌,
  length, length-append, map, ok, >>=-eq-ok, arith, append-nil, ok-injective, subst, map-append,
  true, false, All, All-append, All-left, All-right,
}
use cedana_image_streamer.Image.{Body, Marker, Codec}
use cedana_image_streamer.Util.{kb, frame}
use cedana_image_streamer.UnixPipe.{WritePipe}
use cedana_image_streamer.UnixPipe.Splice.{Wrote}
use cedana_image_streamer.System.{System}
use cedana_image_streamer.Stream.{Piece, event, serialize, route, IsNumbered, Fits, occurs}
use cedana_image_streamer.Stream.Laws.{
  serialize-append, route-concat_home, route-concat_other, IsNumbered-append, occurs-append,
  All-ne_of_occurs,
}
use cedana_image_streamer.Capture.{
  Shard, ImageSerializer, Chunk, write_to_shard, refresh_if_short, most_room, put, data_size,
}
use cedana_image_streamer.Capture.Writes.{
  payload, remainder, available, WroteChunk, write_to_shard-WroteChunk, pipes,
  pipes-refresh_if_short, most_room-eq-ok,
}

abbrev pub fds : List WritePipe → List ℕ
fds ps = map (λ p. p.fd) ps

module _ (c : Codec Marker) where
  -- All that was written to the pipe is the pieces of the log that went to it.
  abbrev pub Carries : List Piece → WritePipe → Type 0
  Carries log pipe = pipe.written ≡ serialize c (route pipe.fd log)

  Carries-concat_other :
      (log : List Piece) (p : Piece) (pipe : WritePipe)
      → pipe.fd ≢ p.home
      → Carries log pipe
      → Carries (log ++ p ∷ []) pipe
  Carries-concat_other log p pipe h k = rw (route-concat_other pipe.fd log p (λ e. h (sym e))) k

  Carries-concat_others :
      (log : List Piece) (p : Piece) (ps : List WritePipe)
      → All (λ fd. fd ≢ p.home) (fds ps)
      → All (Carries log) ps
      → All (Carries (log ++ p ∷ [])) ps
  Carries-concat_others log p [] h k = tt
  Carries-concat_others log p (pipe ∷ ps) h k =
      (Carries-concat_other log p pipe h.0 k.0, Carries-concat_others log p ps h.1 k.1)

  Carries-concat_home :
      (log : List Piece) (p : Piece) (pipe pipe' : WritePipe)
      → p.home ≡ pipe.fd
      → Wrote pipe (frame c p.marker ++ p.payload) pipe'
      → Carries log pipe
      → Carries (log ++ p ∷ []) pipe'
  Carries-concat_home log p pipe pipe' e w k =
      let f : pipe'.fd ≡ p.home = w.fd ∙ sym e in
      let k' : pipe.written ≡ serialize c (route p.home log) = rw e k in
      w.written
      ∙ rw (
        f,
        route-concat_home log p,
        serialize-append c (route p.home log) (p ∷ []),
        k',
        append-nil,
      )

  no_other :
      (front back : List WritePipe) (pipe : WritePipe)
      → occurs pipe.fd (fds (front ++ pipe ∷ back)) ≤ 1
      → (occurs pipe.fd (fds front) ≡ 0) × (occurs pipe.fd (fds back) ≡ 0)
  no_other front back pipe h = ground (
    arith,
    map-append (λ (p : WritePipe). p.fd) front (pipe ∷ back),
    occurs-append pipe.fd (fds front) (pipe.fd ∷ fds back),
  )

  -- One pipe is written to, the others are left alone.
  pub Carries-write :
      (log : List Piece) (p : Piece) (front back : List WritePipe) (pipe pipe' : WritePipe)
      → occurs pipe.fd (fds (front ++ pipe ∷ back)) ≤ 1
      → p.home ≡ pipe.fd
      → Wrote pipe (frame c p.marker ++ p.payload) pipe'
      → All (Carries log) (front ++ pipe ∷ back)
      → All (Carries (log ++ p ∷ [])) (front ++ pipe' ∷ back)
  Carries-write log p front back pipe pipe' d e w k =
      let (none_before, none_behind) = no_other front back pipe d in
      let rest = All-right (Carries log) front (pipe ∷ back) k in
      All-append (Carries (log ++ p ∷ [])) front (pipe' ∷ back)
        (Carries-concat_others log p front (rw e (All-ne_of_occurs pipe.fd (fds front) none_before))
          (All-left (Carries log) front (pipe ∷ back) k))
        (
          Carries-concat_home log p pipe pipe' e w rest.0,
          Carries-concat_others log p back (rw e (All-ne_of_occurs pipe.fd (fds back) none_behind))
              rest.1,
        )

-- `small` and `big` are the pieces that were written to the shards.
pub record IsLogged (sys : System) (s : ImageSerializer) (small big : List Piece) : Type 0 where
  pub small_stream : s.small_file_shard.pipe.written ≡ serialize sys.codec small
  pub small_numbered : IsNumbered 0 small
  pub small_count : length small ≡ s.small_file_seq
  pub small_fits : All (Fits sys.codec) small
  pub streams : All (Carries sys.codec big) (pipes s.shards)
  pub numbered : IsNumbered 0 big
  pub count : length big ≡ s.seq
  pub fits : All (Fits sys.codec) big
  pub homes : All (λ p. occurs p.home (fds (pipes s.shards)) ≡ 1) big
  pub distinct : (j : ℕ) → occurs j (fds (pipes s.shards)) ≤ 1

-- What `put` leaves alone.
pub record KeepsNames (s s' : ImageSerializer) : Type 0 where
  pub current : s'.current_filename ≡ s.current_filename
  pub metadata : s'.metadata ≡ s.metadata
  pub capacity : s'.shard_pipe_capacity ≡ s.shard_pipe_capacity
  pub descriptors : fds (pipes s'.shards) ≡ fds (pipes s.shards)

-- `put` wrote one piece, of which `P` holds.
abbrev pub Puts :
    (Piece → Type 0)
    → ImageSerializer
    → Body
    → Option (Bytes × ℕ)
    → ImageSerializer
    → Bytes
    → Type 0
Puts P s body content s' left =
    (p : Piece) × (event p ≡ (some body, payload content))
    × P p
    × KeepsNames s s'
    × (left ≡ remainder content)
    × (data_size content ≤ available content)

abbrev pub next_piece : ℕ → ℕ → Body → Option (Bytes × ℕ) → Piece
next_piece fd seq body content = record {
  home = fd;
  marker = record { seq = seq; body = some body };
  payload = payload content;
}

abbrev pub next_chunk : ℕ → Body → Option (Bytes × ℕ) → Chunk
next_chunk seq body content = record {
  marker = record { seq = seq; body = some body };
  content = content;
}

module _ (sys : System) (s : ImageSerializer) (body : Body) (content : Option (Bytes × ℕ))
    (small big : List Piece) (v : IsLogged sys s small big) where
  -- A marker and its data on the shard of the small files are the next piece of their log.
  pub small_grown :
      (shard : Shard) (file_size : ℕ)
      → Wrote s.small_file_shard.pipe
          (frame sys.codec (next_chunk s.small_file_seq body content).marker ++ payload content)
          shard.pipe
      → length (sys.codec.encode (next_chunk s.small_file_seq body content).marker) < 10 * kb
      → IsLogged sys
          (record s {
            small_file_seq = s.small_file_seq + 1;
            small_file_shard = shard;
            current_file_size = file_size;
          })
          (small ++ next_piece 0 s.small_file_seq body content ∷ [])
          big
  small_grown shard file_size w fits = record {
    small_stream = w.written ∙ rw (v.small_stream, serialize-append, append-nil);
    small_numbered = IsNumbered-append 0 small _ v.small_numbered (omega (arith, v.small_count));
    small_count = omega (
      arith,
      v.small_count,
      length-append small (next_piece 0 s.small_file_seq body content ∷ []),
    );
    small_fits = All-append (Fits sys.codec) small _ v.small_fits (fits, tt);
    streams = v.streams;
    numbered = v.numbered;
    count = v.count;
    fits = v.fits;
    homes = v.homes;
    distinct = v.distinct;
  }

  wrote_small :
      (shard : Shard) (left : Bytes) (n : ℕ)
      → WroteChunk sys s.small_file_shard (next_chunk s.small_file_seq body content) shard left n
      → Puts
          (λ p.
            IsLogged sys
              (record s {
                small_file_seq = s.small_file_seq + 1;
                small_file_shard = shard;
                current_file_size = s.current_file_size + n;
              })
              (small ++ p ∷ [])
              big)
          s
          body
          content
          (record s {
            small_file_seq = s.small_file_seq + 1;
            small_file_shard = shard;
            current_file_size = s.current_file_size + n;
          })
          left
  wrote_small shard left n w = (
    next_piece 0 s.small_file_seq body content,
    refl,
    small_grown shard (s.current_file_size + n) w.wrote w.fits,
    record { current = refl; metadata = refl; capacity = refl; descriptors = refl },
    w.left_eq,
    w.enough,
  )

  -- A piece for the small files is the next one of their log.
  pub put-IsLogged-small :
      (s' : ImageSerializer) (left : Bytes)
      → put sys s body content true ≡ ok (s', left)
      → Puts (λ p. IsLogged sys s' (small ++ p ∷ []) big) s body content s' left
  unfolding put
  put-IsLogged-small s' left e =
      let ((shard, l, n), e1, e2) =
        >>=-eq-ok (write_to_shard sys s.small_file_shard (next_chunk s.small_file_seq body content))
          _ e in
      subst
        (λ (z : ImageSerializer × Bytes).
          Puts (λ p. IsLogged sys z.0 (small ++ p ∷ []) big) s body content z.0 z.1)
        (ok-injective e2)
        (wrote_small shard l n (write_to_shard-WroteChunk sys s.small_file_shard _ shard l n e1))

  module _ (front back : List Shard) (shard shard' : Shard) (left : Bytes) (n : ℕ)
      (parts : pipes front ++ shard.pipe ∷ pipes back ≡ pipes s.shards)
      (w : WroteChunk sys shard (next_chunk s.seq body content) shard' left n) where
    abbrev piece : Piece
    piece = next_piece shard.pipe.fd s.seq body content

    abbrev after : List WritePipe
    after = pipes front ++ shard'.pipe ∷ pipes back

    same_fds : fds after ≡ fds (pipes s.shards)
    same_fds =
        map-append (λ (p : WritePipe). p.fd) (pipes front) (shard'.pipe ∷ pipes back)
        ∙ rw w.wrote.fd (
            sym (map-append (λ (p : WritePipe). p.fd) (pipes front) (shard.pipe ∷ pipes back))
            ∙ ap fds parts)

    shard_counted :
        occurs shard.pipe.fd (fds (pipes s.shards))
        ≡ occurs shard.pipe.fd (fds (pipes front))
          + occurs shard.pipe.fd (fds (shard.pipe ∷ pipes back))
    shard_counted =
        rw (← parts, map-append (λ (p : WritePipe). p.fd) (pipes front) (shard.pipe ∷ pipes back))
          (occurs-append shard.pipe.fd (fds (pipes front)) (fds (shard.pipe ∷ pipes back)))

    chosen_once : occurs shard.pipe.fd (fds (pipes s.shards)) ≡ 1
    chosen_once = ground (arith, shard_counted, v.distinct shard.pipe.fd)

    wrote_big :
        Puts
          (λ p.
            IsLogged sys
              (record s {
                seq = s.seq + 1;
                shards = front ++ shard' ∷ back;
                current_file_size = s.current_file_size + n;
              })
              small
              (big ++ p ∷ []))
          s
          body
          content
          (record s {
            seq = s.seq + 1;
            shards = front ++ shard' ∷ back;
            current_file_size = s.current_file_size + n;
          })
          left
    wrote_big = (
      piece,
      refl,
      record {
        small_stream = v.small_stream;
        small_numbered = v.small_numbered;
        small_count = v.small_count;
        small_fits = v.small_fits;
        streams = rw (map-append (λ (p : Shard). p.pipe) front (shard' ∷ back)) (
            Carries-write sys.codec big piece (pipes front) (pipes back) shard.pipe shard'.pipe
              (rw parts (v.distinct shard.pipe.fd)) refl w.wrote (rw parts v.streams));
        numbered = IsNumbered-append 0 big _ v.numbered (omega (arith, v.count));
        count = omega (arith, v.count, length-append big (piece ∷ []));
        fits = All-append (Fits sys.codec) big _ v.fits (w.fits, tt);
        homes =
            rw (map-append (λ (p : Shard). p.pipe) front (shard' ∷ back), same_fds)
              (All-append (λ p. occurs p.home (fds (pipes s.shards)) ≡ 1) big (piece ∷ []) v.homes
                (chosen_once, tt));
        distinct = λ j.
            rw (map-append (λ (p : Shard). p.pipe) front (shard' ∷ back), same_fds) (v.distinct j);
      },
      record {
        current = refl;
        metadata = refl;
        capacity = refl;
        descriptors = rw (map-append (λ (p : Shard). p.pipe) front (shard' ∷ back)) same_fds;
      },
      w.left_eq,
      w.enough,
    )

  -- Any other piece is the next one of the other log, on the shard that was chosen for it.
  pub put-IsLogged-big :
      (s' : ImageSerializer) (left : Bytes)
      → put sys s body content false ≡ ok (s', left)
      → Puts (λ p. IsLogged sys s' small (big ++ p ∷ [])) s body content s' left
  unfolding put
  put-IsLogged-big s' left e =
      let (shards, e1, e') =
        >>=-eq-ok
          (refresh_if_short sys s.seq s.shard_pipe_capacity (sys.page_size + data_size content)
            s.shards)
          _ e in
      let ((front, shard, back), e2, e'') = >>=-eq-ok (most_room shards) _ e' in
      let ((shard', l, n), e3, e4) =
        >>=-eq-ok (write_to_shard sys shard (next_chunk s.seq body content)) _ e'' in
      subst
        (λ (z : ImageSerializer × Bytes).
          Puts (λ p. IsLogged sys z.0 small (big ++ p ∷ [])) s body content z.0 z.1)
        (ok-injective e4)
        (wrote_big front back shard shard' l n
          (sym (map-append (λ (p : Shard). p.pipe) front (shard ∷ back))
            ∙ ap pipes (most_room-eq-ok shards front back shard e2)
            ∙ pipes-refresh_if_short sys s.seq s.shard_pipe_capacity _ s.shards shards e1)
          (write_to_shard-WroteChunk sys shard _ shard' l n e3))
