-- ===== src/Extract/Reassembly.antt =====
-- The main loop of the extraction replays the image in order, whichever ready descriptors poll() reports.
use cedana_image_streamer.Prelude.{
  ℕ, zero, suc, ◌+◌, ◌≡◌, ◌≢◌, ◌<◌, ◌==◌, refl, sym, ap, ◌∙◌, subst, Bool, true, false, none, some,
  List, [], ◌∷◌, ◌++◌, length, map, Result, ok, All, All-map, arith, append_assoc, Bool-cases, inl,
  inr, ok-injective,
}
use cedana_image_streamer.Image.{Marker, Codec}
use cedana_image_streamer.Util.{frame}
use cedana_image_streamer.Util.RoundTrip.{pb_read_next-frame, pb_read_next-nil}
use cedana_image_streamer.System.{System, Laws}
use cedana_image_streamer.ImageStore.{ImageStore}
use cedana_image_streamer.Stream.{Piece, event, serialize, route, Fits, occurs}
use cedana_image_streamer.Extract.{
  Shard, PendingMarker, ImageDeserializer, process_pending_markers, drain_marker, drain_shard,
  drain_all, get_next_readable_shard,
}
use cedana_image_streamer.Extract.Sink.{Output}
use cedana_image_streamer.Extract.Replay.{TakesExactly, replay}
use cedana_image_streamer.Extract.Invariant.{
  fds, pending_fds, IsPending, IsDone, total, Inv, IsSettled,
}
use cedana_image_streamer.Extract.Queues.{route_take}
use cedana_image_streamer.Extract.Process.{ReplaysTo, replay-cons}
use cedana_image_streamer.Extract.Loop.{Between, rounds, Settles, process_pending_markers-Settles}
use cedana_image_streamer.Extract.Shards.{Polls, get_next_readable_cases}

-- What holds of all pieces holds of those of a shard.
route-All : (P : Piece → Type 0) (fd : ℕ) (todo : List Piece) → All P todo → All P (route fd todo)
unfolding route
route-All P fd [] h = tt
route-All P fd (p ∷ ps) h = ground (arith, route-All P fd ps h.1)

not_at_end :
    {Store File : Type 0} (ops : ImageStore Store File) (o o' : Output Store File) (eof : Bool)
    (fd : ℕ) (todo : List Piece) (p : Piece) (ps : List Piece)
    → ReplaysTo ops o eof todo o'
    → route fd todo ≡ p ∷ ps
    → eof ≡ false
not_at_end ops o o' eof fd [] p ps r e = unfold route in cc
not_at_end ops o o' eof fd (q ∷ qs) p ps r e =
    (replay-cons ops o eof q.marker.body q.payload (map event qs) (o', true) r).0

module _ {Store File : Type 0} (sys : System) (laws : Laws sys) (ops : ImageStore Store File)
    (law : TakesExactly ops) (o' : Output Store File) where
  module _ (d : ImageDeserializer Store File) (shard : Shard) (todo : List Piece)
      (b : Between sys ops o' (record d { shards = shard ∷ d.shards }) todo) where
    content : shard.pipe.content ≡ serialize sys.codec (route shard.pipe.fd todo)
    content = b.inv.shards.0

    abbrev at_end : ℕ → ImageDeserializer Store File
    at_end now = record d {
      eof_shards =
          record shard {
            pipe = record { fd = shard.pipe.fd; content = [] };
            transfer_duration_millis = now;
          }
          ∷ d.eof_shards;
    }

    drain_shard_end :
        (now : ℕ)
        → route shard.pipe.fd todo ≡ []
        → drain_shard sys ops now d shard ≡ ok (at_end now)
    unfolding drain_shard drain_marker
    drain_shard_end now e = rw (content ∙ ap (serialize sys.codec) e, pb_read_next-nil sys.codec)

    -- The marker that was read, with the shard behind it.
    abbrev read_marker : Piece → List Piece → PendingMarker
    read_marker p ps = record {
      marker = p.marker;
      shard = record shard {
        pipe = record { fd = shard.pipe.fd; content = p.payload ++ serialize sys.codec ps };
        bytes_read = shard.bytes_read + length (frame sys.codec p.marker);
      };
    }

    abbrev with_marker : Piece → List Piece → ImageDeserializer Store File
    with_marker p ps = record d { pending_markers = read_marker p ps ∷ d.pending_markers }

    drain_shard_next :
        (now : ℕ) (p : Piece) (ps : List Piece)
        → route shard.pipe.fd todo ≡ p ∷ ps
        → drain_shard sys ops now d shard ≡ process_pending_markers sys ops (with_marker p ps)
    unfolding drain_shard drain_marker
    drain_shard_next now p ps e =
        let fits =
          subst (All (Fits sys.codec)) e
            (route-All (Fits sys.codec) shard.pipe.fd todo b.inv.fits) in
        let seen =
          not_at_end ops d.output o' d.image_eof_seen shard.pipe.fd todo p ps b.replays e in
        let stream : shard.pipe.content
            ≡ frame sys.codec p.marker ++ (p.payload ++ serialize sys.codec ps) =
          content
          ∙ ap (serialize sys.codec) e
          ∙ append_assoc (frame sys.codec p.marker) p.payload (serialize sys.codec ps) in
        rw (
          stream,
          pb_read_next-frame sys.codec p.marker (p.payload ++ serialize sys.codec ps) laws.decodes
              fits.0,
          seen,
        )

    -- The shard is at its end.
    end_of_shard :
        (now : ℕ)
        → IsSettled d
        → route shard.pipe.fd todo ≡ []
        → Settles sys ops law o' d todo (drain_shard sys ops now d shard)
    end_of_shard now settled e = (
      at_end now,
      todo,
      drain_shard_end now e,
      record {
        inv = record {
          shards = b.inv.shards.1;
          readable = b.inv.readable;
          pending = b.inv.pending;
          done = (e, b.inv.done);
          numbered = b.inv.numbered;
          fits = b.inv.fits;
          sized = b.inv.sized;
          present =
              All-map (λ p. total (record d { shards = shard ∷ d.shards }) p.home ≡ 1)
                (λ p. total (at_end now) p.home ≡ 1) todo (λ p h. omega (arith, h)) b.inv.present;
          distinct = λ j. omega (arith, b.inv.distinct j);
        };
        replays = b.replays;
      },
      settled,
      refl,
    )

    -- The shard's next marker is read, and becomes pending.
    next_of_shard :
        (now : ℕ) (p : Piece) (ps : List Piece)
        → route shard.pipe.fd todo ≡ p ∷ ps
        → Settles sys ops law o' d todo (drain_shard sys ops now d shard)
    next_of_shard now p ps e =
        let (d', todo', e1, b', settled, balance) =
          process_pending_markers-Settles sys ops law o' (with_marker p ps) todo (record {
            inv = record {
              shards = b.inv.shards.1;
              readable = b.inv.readable;
              pending = ((p, ps, e, refl, refl), b.inv.pending);
              done = b.inv.done;
              numbered = b.inv.numbered;
              fits = b.inv.fits;
              sized = b.inv.sized;
              present =
                  All-map (λ q. total (record d { shards = shard ∷ d.shards }) q.home ≡ 1)
                    (λ q. total (with_marker p ps) q.home ≡ 1) todo (λ q h. omega (arith, h))
                    b.inv.present;
              distinct = λ j. omega (arith, b.inv.distinct j);
            };
            replays = b.replays;
          }) in
        (d', todo', drain_shard_next now p ps e ∙ e1, b', settled, balance)

    -- One round: the shard is read.
    drain_shard-Settles :
        (now : ℕ) → IsSettled d → Settles sys ops law o' d todo (drain_shard sys ops now d shard)
    drain_shard-Settles now settled = go (route shard.pipe.fd todo) refl
      where
        go :
            (ps : List Piece)
            → route shard.pipe.fd todo ≡ ps
            → Settles sys ops law o' d todo (drain_shard sys ops now d shard)
        go [] e = end_of_shard now settled e
        go (p ∷ ps) e = next_of_shard now p ps e

replay-nil :
    {Store File : Type 0} (ops : ImageStore Store File) (z z' : Output Store File × Bool)
    → replay ops z [] ≡ ok z'
    → z ≡ z'
unfolding replay
replay-nil ops z z' e = ok-injective e

-- If all shards are pending or done, and no pending marker is next, nothing is left to do.
no_pending_home :
    (c : Codec Marker) (k : ℕ) (p : Piece) (rest : List Piece) (ms : List PendingMarker)
    → p.marker.seq ≡ k
    → All (IsPending c (p ∷ rest)) ms
    → All (λ m. m.marker.seq ≢ k) ms
    → occurs p.home (pending_fds ms) ≡ 0
no_pending_home c k p rest [] n h settled = refl
no_pending_home c k p rest (m ∷ ms) n ((q, qs, e, a, b), h) settled =
    elim (Bool-cases (m.shard.pipe.fd == p.home)) [
      | inl same ↦
          let home : p.home ≡ m.shard.pipe.fd = ground arith in
          let first : p ≡ q = cc (route_take m.shard.pipe.fd p rest home) in
          absurd (
            settled.0
              (ap (λ (x : Marker). x.seq) a ∙ ap (λ (x : Piece). x.marker.seq) (sym first) ∙ n))
      | inr other ↦ rw other (omega (arith, no_pending_home c k p rest ms n h settled.1))
    ]

no_done_home :
    (c : Codec Marker) (p : Piece) (rest : List Piece) (ss : List Shard)
    → All (IsDone c (p ∷ rest)) ss
    → occurs p.home (fds ss) ≡ 0
no_done_home c p rest [] h = refl
no_done_home c p rest (s ∷ ss) h = elim (Bool-cases (s.pipe.fd == p.home)) [
  | inl same ↦
      let home : p.home ≡ s.pipe.fd = ground arith in cc (route_take s.pipe.fd p rest home, h.0)
  | inr other ↦ rw other (omega (arith, no_done_home c p rest ss h.1))
]

nothing_left :
    {Store File : Type 0} (sys : System) (d : ImageDeserializer Store File) (todo : List Piece)
    → Inv sys d todo
    → IsSettled d
    → d.shards ≡ []
    → d.readable_shards ≡ []
    → todo ≡ []
nothing_left sys d [] v settled s r = refl
nothing_left sys d (p ∷ rest) v settled s r = absurd (
    omega (
      arith,
      v.present.0,
      no_pending_home sys.codec d.seq p rest d.pending_markers v.numbered.0 v.pending settled,
      no_done_home sys.codec p rest d.eof_shards v.done,
      ap (λ (ss : List Shard). occurs p.home (fds ss)) s,
      ap (λ (ss : List Shard). occurs p.home (fds ss)) r,
    ))

-- The image is replayed, and no shard is left to read.
abbrev pub Extracts :
    {Store File : Type 0} → Output Store File → Result (ImageDeserializer Store File) → Type 0
Extracts {Store = Store} {File = File} o' r =
    (d' : ImageDeserializer Store File) × (r ≡ ok d')
    × (d'.output ≡ o')
    × (d'.image_eof_seen ≡ true)
    × (d'.shards ≡ [])
    × (d'.readable_shards ≡ [])

module _ {Store File : Type 0} (sys : System) (laws : Laws sys) (ops : ImageStore Store File)
    (law : TakesExactly ops) (o' : Output Store File) (poll : ℕ → ℕ → Result (ℕ → Bool))
    (polls : (round : ℕ) → Polls (poll round)) (elapsed : ℕ → ℕ) where
  drain_all_stop :
      (fuel round : ℕ) (d : ImageDeserializer Store File)
      → get_next_readable_shard (poll round) d ≡ ok (none, d)
      → d.image_eof_seen ≡ true
      → drain_all sys ops poll elapsed (suc fuel) round d ≡ ok d
  unfolding drain_all
  drain_all_stop fuel round d e seen = rw (e, seen)

  drain_all_go :
      (fuel round : ℕ) (d d1 d2 : ImageDeserializer Store File) (shard : Shard)
      → get_next_readable_shard (poll round) d ≡ ok (some shard, d1)
      → drain_shard sys ops (elapsed round) d1 shard ≡ ok d2
      → drain_all sys ops poll elapsed (suc fuel) round d
        ≡ drain_all sys ops poll elapsed fuel (suc round) d2
  unfolding drain_all
  drain_all_go fuel round d d1 d2 shard e e' = rw (e, e')

  -- From a state between two rounds whose pending markers are not due, the main loop ends within the
  -- rounds that are left, and its output is that of the replay in order.
  pub drain_all-Extracts :
      (fuel round : ℕ) (d : ImageDeserializer Store File) (todo : List Piece)
      → Between sys ops o' d todo
      → IsSettled d
      → rounds d todo < fuel
      → Extracts o' (drain_all sys ops poll elapsed fuel round d)
  drain_all-Extracts zero round d todo b settled h = absurd (omega arith)
  drain_all-Extracts (suc fuel) round d todo b settled h =
      elim (get_next_readable_cases sys d todo b.inv (poll round) (polls round)) [
        | inl (e, s, r) ↦
            let nil = nothing_left sys d todo b.inv settled s r in
            let last : replay ops (d.output, d.image_eof_seen) [] ≡ ok (o', true) =
              subst (λ ps. ReplaysTo ops d.output d.image_eof_seen ps o') nil b.replays in
            let ended = replay-nil ops (d.output, d.image_eof_seen) (o', true) last in
            let seen = ap (λ (z : Output Store File × Bool). z.1) ended in
            (
              d,
              drain_all_stop fuel round d e seen,
              ap (λ (z : Output Store File × Bool). z.0) ended,
              seen,
              s,
              r,
            )
        | inr (shard, shards, readable, e, inv, len) ↦
            let d1 = record d { shards = shards; readable_shards = readable } in
            let (d2, todo', e2, b2, settled2, balance) =
              drain_shard-Settles sys laws ops law o' d1 shard todo
                (record { inv = inv; replays = b.replays }) (elapsed round) settled in
            let (d', e3, out, seen, s, r) =
              drain_all-Extracts fuel (suc round) d2 todo' b2 settled2 (omega arith) in
            (d', drain_all_go fuel round d d1 d2 shard e e2 ∙ e3, out, seen, s, r)
      ]
