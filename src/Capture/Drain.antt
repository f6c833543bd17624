-- ===== src/Capture/Drain.antt =====
-- What `drain_img_file` adds to the logs: the name of the file if another one was current, the bytes
-- of its pipe in chunks, and the end of the file if the pipe is empty.
use cedana_image_streamer.Prelude.{
  ensure, ioctl_failed, ℕ, zero, suc, ◌-◌, min, ◌≡◌, ◌==◌, refl, ap, ◌∙◌, Bytes, Option, none, some,
  List, [], ◌∷◌, ◌++◌, length, map, ok, >>=-eq-ok, arith, append-nil, append_assoc, map-append,
  if◌then◌else◌, Bool, true, false, not, subst, ok-injective, take, drop, drop-split, drop_all,
  Bool-cases, =?=_sound, inl, inr,
}
use cedana_image_streamer.Image.{Body, filename, file_data, file_eof}
use cedana_image_streamer.System.{System}
use cedana_image_streamer.Stream.{Piece, Event, event}
use cedana_image_streamer.Util.Files.{is_small_file}
use cedana_image_streamer.Capture.{
  ImageFile, ImageSerializer, put, is_current, maybe_write_filename_marker, chunk_max_data_size,
  drain_loop, drain_eof, drain_img_file,
}
use cedana_image_streamer.Capture.Writes.{payload, remainder}
use cedana_image_streamer.Capture.Log.{
  IsLogged, KeepsNames, Puts, put-IsLogged-small, put-IsLogged-big,
}

-- The two logs: of the small files, and of the others.
abbrev pub Logs : Type 0
Logs = List Piece × List Piece

-- The logs with more pieces for the small files, or for the others.
abbrev pub grown : Bool → Logs → List Piece → Logs
grown true logs ps = (logs.0 ++ ps, logs.1)
grown false logs ps = (logs.0, logs.1 ++ ps)

grown_twice :
    (b : Bool) (logs : Logs) (ps qs : List Piece)
    → grown b (grown b logs ps) qs ≡ grown b logs (ps ++ qs)
grown_twice true logs ps qs = rw append_assoc
grown_twice false logs ps qs = rw append_assoc

grown-nil : (b : Bool) (logs : Logs) → grown b logs [] ≡ logs
grown-nil true logs = rw append-nil
grown-nil false logs = rw append-nil

-- The events of each part of `drain_img_file`.
unfoldable pub filename_events : Option Bytes → Bytes → List Event
filename_events current name =
    if is_current current name then [] else (some (filename name), []) ∷ []

unfoldable pub data_events : ℕ → ℕ → Bytes → ℕ → List Event
data_events limit fuel pipe zero = []
data_events limit zero pipe (suc n) = []
data_events limit (suc fuel) pipe (suc n) =
    (some (file_data (min (suc n) limit)), take (min (suc n) limit) pipe)
    ∷ data_events limit fuel (drop (min (suc n) limit) pipe) (suc n - min (suc n) limit)

unfoldable pub eof_events : Bool → List Event
eof_events true = (some (file_eof true), []) ∷ []
eof_events false = []

unfoldable pub drain_events : ℕ → Option Bytes → ImageFile → List Event
unfolding filename_events data_events eof_events
drain_events limit current img_file =
    filename_events current img_file.name
    ++ (data_events limit (length img_file.pipe) img_file.pipe (length img_file.pipe)
        ++ eof_events (length img_file.pipe == 0))

module _ (sys : System) where
  abbrev pub IsLoggedIn : ImageSerializer → Logs → Type 0
  IsLoggedIn s logs = IsLogged sys s logs.0 logs.1

  -- The serializer has written these events to one of the logs.
  abbrev pub Emits : Bool → Logs → ImageSerializer → List Event → Type 0
  Emits b logs s' events =
      (ps : List Piece) × (map event ps ≡ events) × IsLoggedIn s' (grown b logs ps)

  Emits-nil : (b : Bool) (logs : Logs) (s : ImageSerializer) → IsLoggedIn s logs → Emits b logs s []
  Emits-nil b logs s v = ([], refl, rw (grown-nil b logs) v)

  -- Events behind events.
  Emits-append :
      (b : Bool) (logs : Logs) (s' : ImageSerializer) (ps : List Piece) (xs ys : List Event)
      → map event ps ≡ xs
      → Emits b (grown b logs ps) s' ys
      → Emits b logs s' (xs ++ ys)
  Emits-append b logs s' ps xs ys e (qs, e', v') =
      (ps ++ qs, map-append event ps qs ∙ rw (e, e'), rw (grown_twice b logs ps qs) at v')

  -- One call of `put`.
  pub put-IsLogged :
      (b : Bool) (s : ImageSerializer) (body : Body) (content : Option (Bytes × ℕ)) (logs : Logs)
      (s' : ImageSerializer) (left : Bytes)
      → IsLoggedIn s logs
      → put sys s body content b ≡ ok (s', left)
      → Puts (λ p. IsLoggedIn s' (grown b logs (p ∷ []))) s body content s' left
  put-IsLogged true s body content logs s' left v e =
      put-IsLogged-small sys s body content logs.0 logs.1 v s' left e
  put-IsLogged false s body content logs s' left v e =
      put-IsLogged-big sys s body content logs.0 logs.1 v s' left e

  -- What a drain leaves alone, and the name that is current after a marker or a chunk.
  pub record Follows (name : Bytes) (s s' : ImageSerializer) : Type 0 where
    pub current : s'.current_filename ≡ some name
    pub metadata : s'.metadata ≡ s.metadata
    pub capacity : s'.shard_pipe_capacity ≡ s.shard_pipe_capacity

  current_lem :
      (current : Option Bytes) (name : Bytes) → is_current current name ≡ true → current ≡ some name
  current_lem none name h = cc
  current_lem (some current) name h = rw (=?=_sound current name h)

  -- The names are no part of what was written.
  rename-IsLogged :
      (s : ImageSerializer) (current : Option Bytes) (metadata : List Bytes) (logs : Logs)
      → IsLoggedIn s logs
      → IsLoggedIn (record s { current_filename = current; metadata = metadata }) logs
  rename-IsLogged s current metadata logs v = record {
    small_stream = v.small_stream;
    small_numbered = v.small_numbered;
    small_count = v.small_count;
    small_fits = v.small_fits;
    streams = v.streams;
    numbered = v.numbered;
    count = v.count;
    fits = v.fits;
    homes = v.homes;
    distinct = v.distinct;
  }

  -- One event, with what the call of `put` leaves alone.
  put-event :
      (b : Bool) (s : ImageSerializer) (body : Body) (content : Option (Bytes × ℕ)) (logs : Logs)
      (s' : ImageSerializer) (left : Bytes)
      → IsLoggedIn s logs
      → put sys s body content b ≡ ok (s', left)
      → Emits b logs s' ((some body, payload content) ∷ [])
        × KeepsNames s s'
        × (left ≡ remainder content)
  put-event b s body content logs s' left v e =
      let (p, q, r, k, l, n) = put-IsLogged b s body content logs s' left v e in
      ((p ∷ [], rw q, r), k, l)

  new_name :
      (b : Bool) (s : ImageSerializer) (name : Bytes) (logs : Logs) (t : ImageSerializer)
      (left : Bytes)
      → IsLoggedIn s logs
      → put sys (record s { current_filename = some name }) (filename name) none b ≡ ok (t, left)
      → Emits b logs t ((some (filename name), []) ∷ []) × Follows name s t
  new_name b s name logs t left v e =
      let (m, k, l) =
        put-event b (record s { current_filename = some name }) (filename name) none logs t left
          (rename-IsLogged s (some name) s.metadata logs v) e in
      (m, record { current = k.current; metadata = k.metadata; capacity = k.capacity })

  filename-Emits :
      (b : Bool) (s : ImageSerializer) (name : Bytes) (logs : Logs) (s' : ImageSerializer)
      → IsLoggedIn s logs
      → maybe_write_filename_marker sys s name b ≡ ok s'
      → Emits b logs s' (filename_events s.current_filename name) × Follows name s s'
  unfolding maybe_write_filename_marker filename_events
  filename-Emits b s name logs s' v e = elim (Bool-cases (is_current s.current_filename name)) [
    | inl same ↦
        rw (same, ← ok-injective (rw same at e))
          (
            Emits-nil b logs s v,
            record {
              current = current_lem s.current_filename name same;
              metadata = refl;
              capacity = refl;
            },
          )
    | inr new ↦
        let ((t, left), e1, e2) =
          >>=-eq-ok (put sys (record s { current_filename = some name }) (filename name) none b) _
            (rw new at e) in
        rw (new, ← ok-injective e2) (new_name b s name logs t left v e1)
  ]

  eof-Emits :
      (b : Bool) (s : ImageSerializer) (name : Bytes) (logs : Logs) (is_eof : Bool)
      (s' : ImageSerializer)
      → IsLoggedIn s logs
      → drain_eof sys s name b is_eof ≡ ok s'
      → Emits b logs s' (eof_events is_eof)
        × (s'.current_filename ≡ s.current_filename)
        × (s'.metadata ≡ (if is_eof then s.metadata ++ name ∷ [] else s.metadata))
        × (s'.shard_pipe_capacity ≡ s.shard_pipe_capacity)
  unfolding drain_eof eof_events
  eof-Emits b s name logs false s' v e =
      rw (← ok-injective e) (Emits-nil b logs s v, refl, refl, refl)
  eof-Emits b s name logs true s' v e =
      let ((t, left), e1, e2) =
        >>=-eq-ok (put sys (record s { metadata = s.metadata ++ name ∷ [] }) (file_eof true) none b)
          _ e in
      let (m, k, l) =
        put-event b (record s { metadata = s.metadata ++ name ∷ [] }) (file_eof true) none logs t
          left (rename-IsLogged s s.current_filename (s.metadata ++ name ∷ []) logs v) e1 in
      rw (← ok-injective e2) (m, k.current, k.metadata, k.capacity)

  -- What the loop over the chunks leaves alone, and what it takes from the pipe.
  pub record Keeps (s s' : ImageSerializer) : Type 0 where
    pub current : s'.current_filename ≡ s.current_filename
    pub metadata : s'.metadata ≡ s.metadata
    pub capacity : s'.shard_pipe_capacity ≡ s.shard_pipe_capacity

  loop-Emits :
      (fuel : ℕ) (b : Bool) (s : ImageSerializer) (pipe : Bytes) (n : ℕ) (logs : Logs)
      (s' : ImageSerializer) (pipe' : Bytes) (limit : ℕ)
      → chunk_max_data_size sys s ≡ limit
      → IsLoggedIn s logs
      → drain_loop sys fuel s pipe n b ≡ ok (s', pipe')
      → Emits b logs s' (data_events limit fuel pipe n) × Keeps s s' × (pipe' ≡ drop n pipe)
  unfolding drain_loop data_events
  loop-Emits fuel b s pipe zero logs s' pipe' limit m v e =
      let q = ok-injective e in
      rw
        (
          ← ap (λ (z : ImageSerializer × Bytes). z.0) q,
          ← ap (λ (z : ImageSerializer × Bytes). z.1) q,
        )
        (Emits-nil b logs s v, record { current = refl; metadata = refl; capacity = refl }, refl)
  loop-Emits zero b s pipe (suc n) logs s' pipe' limit m v e = cc
  loop-Emits (suc fuel) b s pipe (suc n) logs s' pipe' limit m v e =
      let size = min (suc n) limit in
      let ((t, rest), e1, e2) =
        >>=-eq-ok (put sys s (file_data size) (some (pipe, size)) b) _ (rw m at e) in
      let (head, k, l) = put-event b s (file_data size) (some (pipe, size)) logs t rest v e1 in
      let m' : chunk_max_data_size sys t ≡ limit =
        unfold chunk_max_data_size in (rw k.capacity m) in
      let (ps, ev, vt) = head in
      let (tail, kt, lt) =
        loop-Emits fuel b t rest (suc n - size) (grown b logs ps) s' pipe' limit m' vt e2 in
      (
        Emits-append b logs s' ps _ (data_events limit fuel (drop size pipe) (suc n - size)) ev (
            subst (λ r. Emits b (grown b logs ps) s' (data_events limit fuel r (suc n - size))) l
              tail),
        record {
          current = kt.current ∙ k.current;
          metadata = kt.metadata ∙ k.metadata;
          capacity = kt.capacity ∙ k.capacity;
        },
        lt ∙ rw (l, drop-split size (suc n) pipe (omega arith)),
      )

  -- What a drain of `img_file` from `s` has to achieve.
  abbrev pub Drained :
      ImageSerializer → ImageFile → Logs → ImageSerializer × ImageFile × Bool → Type 0
  Drained s img_file logs z =
      Emits (is_small_file sys.is_match img_file.name) logs z.0
        (drain_events (chunk_max_data_size sys s) s.current_filename img_file)
      × (z.0.current_filename ≡ some img_file.name)
      × (z.0.metadata
          ≡ (if length img_file.pipe == 0 then s.metadata ++ img_file.name ∷ [] else s.metadata))
      × (z.0.shard_pipe_capacity ≡ s.shard_pipe_capacity)
      × (z.1 ≡ record img_file { pipe = [] })
      × (z.2 ≡ not (length img_file.pipe == 0))

  module _ (s : ImageSerializer) (img_file : ImageFile) (logs : Logs) (v : IsLoggedIn s logs) where
    abbrev n : ℕ
    n = length img_file.pipe

    abbrev small : Bool
    small = is_small_file sys.is_match img_file.name

    three_parts :
        (s1 s2 s3 : ImageSerializer) (pipe : Bytes)
        → maybe_write_filename_marker sys s img_file.name small ≡ ok s1
        → drain_loop sys n s1 img_file.pipe n small ≡ ok (s2, pipe)
        → drain_eof sys s2 img_file.name small (n == 0) ≡ ok s3
        → Drained s img_file logs (s3, record img_file { pipe = pipe }, not (n == 0))
    unfolding drain_events
    three_parts s1 s2 s3 pipe e1 e2 e3 =
        let ((ps, pe, pv), f) = filename-Emits small s img_file.name logs s1 v e1 in
        let ((qs, qe, qv), k, l) =
          loop-Emits n small s1 img_file.pipe n (grown small logs ps) s2 pipe
            (chunk_max_data_size sys s) (unfold chunk_max_data_size in (rw f.capacity)) pv e2 in
        let (last, c, m, cap) =
          eof-Emits small s2 img_file.name (grown small (grown small logs ps) qs) (n == 0) s3 qv
            e3 in
        (
          Emits-append small logs s3 ps _ _ pe
              (Emits-append small (grown small logs ps) s3 qs _ _ qe last),
          c ∙ k.current ∙ f.current,
          m ∙ rw (k.metadata, f.metadata),
          cap ∙ k.capacity ∙ f.capacity,
          ap (λ (p : Bytes). record img_file { pipe = p })
              (l ∙ drop_all n img_file.pipe (omega arith)),
          refl,
        )

    -- A drain that succeeds has written the events of the file to the log of its kind: its name, unless
    -- it was current; all bytes that were in its pipe, cut into chunks; the end of the file exactly when
    -- the pipe was empty. It leaves the pipe empty, makes the file current, answers whether the pipe
    -- held data, and adds the name to the metadata at the end of the file.
    pub drain_img_file-Drained :
        (s' : ImageSerializer) (img_file' : ImageFile) (more : Bool)
        → drain_img_file sys s img_file ≡ ok (s', img_file', more)
        → Drained s img_file logs (s', img_file', more)
    unfolding drain_img_file
    drain_img_file-Drained s' img_file' more e =
        let (u, e0, r0) = >>=-eq-ok (ensure img_file.has_fionread ioctl_failed) _ e in
        let (s1, e1, r1) = >>=-eq-ok (maybe_write_filename_marker sys s img_file.name small) _ r0 in
        let ((s2, pipe), e2, r2) = >>=-eq-ok (drain_loop sys n s1 img_file.pipe n small) _ r1 in
        let (s3, e3, r3) = >>=-eq-ok (drain_eof sys s2 img_file.name small (n == 0)) _ r2 in
        subst (Drained s img_file logs) (ok-injective r3) (three_parts s1 s2 s3 pipe e1 e2 e3)
