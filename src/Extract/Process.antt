-- ===== src/Extract/Process.antt =====
-- One round of `process_pending_markers`: the next piece of the image is delivered, its shard goes back
-- to the shards that are to be read, and the invariant holds of what is left.
use cedana_image_streamer.Prelude.{
  ℕ, suc, ◌+◌, ◌≡◌, ◌==◌, refl, sym, ap, ◌∙◌, subst, Bool, true, false, Bytes, Option, List, [],
  ◌∷◌, ◌++◌, length, map, map-append, ok, >>=-eq-ok, All, All-append, All-left, All-right, All-map,
  arith, if◌then◌else◌,
}
use cedana_image_streamer.Image.{Body, Marker, Codec}
use cedana_image_streamer.System.{System}
use cedana_image_streamer.ImageStore.{ImageStore}
use cedana_image_streamer.Stream.{Piece, Event, event, serialize, route, IsNumbered, occurs}
use cedana_image_streamer.Stream.Laws.{occurs-append, All-ne_of_occurs}
use cedana_image_streamer.Extract.{
  ReadPipe, Shard, PendingMarker, ImageDeserializer, process_marker,
}
use cedana_image_streamer.Extract.Sink.{Output}
use cedana_image_streamer.Extract.Replay.{deliver_body, deliver, replay, TakesExactly}
use cedana_image_streamer.Extract.Invariant.{fds, pending_fds, IsQueued, IsPending, total, Inv}
use cedana_image_streamer.Extract.Queues.{route-first, IsQueued-skip, IsPending-skip, IsDone-skip}
use cedana_image_streamer.Extract.Order.{in_middle}
use cedana_image_streamer.Extract.Deliver.{process_body-deliver}

module _ {Store File : Type 0} (ops : ImageStore Store File) where
  -- A replay that succeeds has not reached the end of the image before its first event.
  pub replay-cons :
      (o : Output Store File) (b : Bool) (body : Option Body) (payload : Bytes) (es : List Event)
      (z : Output Store File × Bool)
      → replay ops (o, b) ((body, payload) ∷ es) ≡ ok z
      → (b ≡ false)
        × (z1 : Output Store File × Bool) × (deliver_body ops o body payload ≡ ok z1)
        × (replay ops z1 es ≡ ok z)
  unfolding replay deliver
  replay-cons o true body payload es z e = cc
  replay-cons o false body payload es z e =
      let (z1, e1, e2) = >>=-eq-ok (deliver_body ops o body payload) _ e in (refl, z1, e1, e2)

  -- After the end of the image there is nothing to replay.
  pub replay-end :
      (o : Output Store File) (b : Bool) (es : List Event) (z : Output Store File × Bool)
      → b ≡ true
      → replay ops (o, b) es ≡ ok z
      → es ≡ []
  replay-end o b [] z h e = refl
  replay-end o b ((body, payload) ∷ es) z h e =
      let (no_end, z1, e1, e2) = replay-cons o b body payload es z e in cc

-- At the end of the image nothing is pending.
no_pending : (c : Codec Marker) (ms : List PendingMarker) → All (IsPending c []) ms → ms ≡ []
no_pending c [] h = refl
no_pending c (m ∷ ms) ((q, qs, e, a, b), h) = unfold route in cc

module _ {Store File : Type 0} (sys : System) (ops : ImageStore Store File) (law : TakesExactly ops)
    (d : ImageDeserializer Store File) (p : Piece) (rest : List Piece) (v : Inv sys d (p ∷ rest))
    (front back : List PendingMarker) (m : PendingMarker)
    (parts : d.pending_markers ≡ front ++ m ∷ back) (home : p.home ≡ m.shard.pipe.fd)
    (marker : m.marker ≡ p.marker)
    (content : m.shard.pipe.content
      ≡ p.payload ++ serialize sys.codec (route m.shard.pipe.fd rest)) where
  -- The deserializer with the marker taken out.
  abbrev pub taken : ImageDeserializer Store File
  taken = record d { pending_markers = front ++ back }

  -- The deserializer when the marker is processed.
  abbrev pub processed : Output Store File → Bool → Shard → ImageDeserializer Store File
  processed o eof s = record d {
    pending_markers = front ++ back;
    output = o;
    image_eof_seen = eof;
    seq = d.seq + 1;
    shards = d.shards ++ s ∷ [];
  }

  pending_counted :
      (j : ℕ)
      → occurs j (pending_fds d.pending_markers)
        ≡ (if m.shard.pipe.fd == j then 1 else 0) + occurs j (pending_fds (front ++ back))
  pending_counted j =
      rw
        (
          parts,
          map-append (λ (x : PendingMarker). x.shard.pipe.fd) front (m ∷ back),
          map-append (λ (x : PendingMarker). x.shard.pipe.fd) front back,
        )
        (omega (
          arith,
          occurs-append j (pending_fds front) (pending_fds (m ∷ back)),
          occurs-append j (pending_fds front) (pending_fds back),
        ))

  total-processed :
      (o : Output Store File) (eof : Bool) (s : Shard)
      → s.pipe.fd ≡ m.shard.pipe.fd
      → (j : ℕ) → total (processed o eof s) j ≡ total d j
  total-processed o eof s e j =
      rw
        (
          map-append (λ (x : Shard). x.pipe.fd) d.shards (s ∷ []),
          occurs-append j (fds d.shards) (s.pipe.fd ∷ []),
          e,
        )
        (omega (arith, pending_counted j))

  -- No other shard has the descriptor of the piece.
  others :
      (occurs p.home (fds d.shards) ≡ 0)
      × (occurs p.home (fds d.readable_shards) ≡ 0)
      × (occurs p.home (pending_fds (front ++ back)) ≡ 0)
      × (occurs p.home (fds d.eof_shards) ≡ 0)
  others = ground (arith, v.present.0, pending_counted p.home)

  IsPending-left : All (IsPending sys.codec rest) (front ++ back)
  IsPending-left =
      let all = subst (All (IsPending sys.codec (p ∷ rest))) parts v.pending in
      IsPending-skip sys.codec p rest (front ++ back) (All-ne_of_occurs p.home _ others.2) (
        All-append (IsPending sys.codec (p ∷ rest)) front back
          (All-left (IsPending sys.codec (p ∷ rest)) front (m ∷ back) all)
          (All-right (IsPending sys.codec (p ∷ rest)) front (m ∷ back) all).1)

  processed-Inv :
      (o : Output Store File) (eof : Bool) (s : Shard)
      → s.pipe ≡ record {
        fd = m.shard.pipe.fd;
        content = serialize sys.codec (route m.shard.pipe.fd rest);
      }
      → Inv sys (processed o eof s) rest
  processed-Inv o eof s e =
      let fd = ap (λ (x : ReadPipe). x.fd) e in
      let queue = ap (λ (x : ReadPipe). x.content) e in
      let same = total-processed o eof s fd in
      let next : suc d.seq ≡ d.seq + 1 = omega arith in
      record {
        shards =
            All-append (IsQueued sys.codec rest) d.shards (s ∷ [])
              (IsQueued-skip sys.codec p rest d.shards (All-ne_of_occurs p.home _ others.0)
                v.shards)
              (queue ∙ ap (λ (j : ℕ). serialize sys.codec (route j rest)) (sym fd), tt);
        readable =
            IsQueued-skip sys.codec p rest d.readable_shards (All-ne_of_occurs p.home _ others.1)
              v.readable;
        pending = IsPending-left;
        done =
            IsDone-skip sys.codec p rest d.eof_shards (All-ne_of_occurs p.home _ others.3) v.done;
        numbered = subst (λ k. IsNumbered k rest) next v.numbered.1;
        fits = v.fits.1;
        sized = v.sized.1;
        present =
            All-map (λ q. total d q.home ≡ 1) (λ q. total (processed o eof s) q.home ≡ 1) rest
              (λ q h. same q.home ∙ h) v.present.1;
        distinct = λ j. rw (same j) (v.distinct j);
      }

-- The rest of a replay that ends well.
abbrev pub ReplaysTo :
    {Store File : Type 0}
    → ImageStore Store File
    → Output Store File
    → Bool
    → List Piece
    → Output Store File
    → Type 0
ReplaysTo ops o eof todo o' = replay ops (o, eof) (map event todo) ≡ ok (o', true)

module _ {Store File : Type 0} (sys : System) (ops : ImageStore Store File) (law : TakesExactly ops)
    (d : ImageDeserializer Store File) (front back : List PendingMarker) (m : PendingMarker)
    (parts : d.pending_markers ≡ front ++ m ∷ back) (o' : Output Store File) where
  -- What is to be known of one round.
  abbrev pub Round : List Piece → Type 0
  Round todo =
      (rest : List Piece) × (o : Output Store File) × (eof : Bool) × (s : Shard) × (length todo
        ≡ suc (length rest))
      × (process_marker sys ops (record d { pending_markers = front ++ back }) m.marker m.shard
          ≡ ok (record d { pending_markers = front ++ back; output = o; image_eof_seen = eof }, s))
      × Inv sys
          (record d {
            pending_markers = front ++ back;
            output = o;
            image_eof_seen = eof;
            seq = d.seq + 1;
            shards = d.shards ++ s ∷ [];
          })
          rest
      × ReplaysTo ops o eof rest o'

  first_piece :
      (p : Piece) (rest : List Piece)
      → Inv sys d (p ∷ rest)
      → ReplaysTo ops d.output d.image_eof_seen (p ∷ rest) o'
      → p.home ≡ m.shard.pipe.fd
      → m.marker ≡ p.marker
      → m.shard.pipe.content ≡ p.payload ++ serialize sys.codec (route m.shard.pipe.fd rest)
      → Round (p ∷ rest)
  unfolding process_marker
  first_piece p rest v r home marker content =
      let (seen, (o, eof), e1, e2) =
        replay-cons ops d.output d.image_eof_seen p.marker.body p.payload (map event rest)
          (o', true) r in
      let at_end = λ (h : eof ≡ true). no_pending sys.codec (front ++ back) (
        subst (λ ps. All (IsPending sys.codec ps) (front ++ back))
          (map-nil rest (replay-end ops o eof (map event rest) (o', true) h e2))
          (IsPending-left sys ops law d p rest v front back m parts home marker content)) in
      let (s, e3, e4) =
        process_body-deliver sys ops law (record d { pending_markers = front ++ back })
          p.marker.body m.shard p.payload _ o eof v.sized.0 content seen at_end e1 in
      (
        rest,
        o,
        eof,
        s,
        refl,
        rw marker e3,
        processed-Inv sys ops law d p rest v front back m parts home marker content o eof s e4,
        e2,
      )
    where
      map-nil : (ps : List Piece) → map event ps ≡ [] → ps ≡ []
      map-nil [] h = refl
      map-nil (q ∷ qs) h = cc

  -- The marker that is next in order is that of the first piece.
  pub next-Round :
      (todo : List Piece)
      → Inv sys d todo
      → ReplaysTo ops d.output d.image_eof_seen todo o'
      → m.marker.seq ≡ d.seq
      → Round todo
  next-Round todo v r due =
      let (q, qs, e, a, b) =
        in_middle (IsPending sys.codec todo) front back m
          (subst (All (IsPending sys.codec todo)) parts v.pending) in
      let (rest, e1, e2, home) =
        route-first d.seq m.shard.pipe.fd todo q qs v.numbered e
          (ap (λ (x : Marker). x.seq) (sym a) ∙ due) in
      subst Round (sym e1) (
        first_piece q rest (subst (Inv sys d) e1 v)
          (subst (λ ps. ReplaysTo ops d.output d.image_eof_seen ps o') e1 r) home a
          (b ∙ ap (λ (ps : List Piece). q.payload ++ serialize sys.codec ps) e2))
