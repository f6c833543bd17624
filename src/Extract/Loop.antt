-- ===== src/Extract/Loop.antt =====
-- `process_pending_markers` processes all that is due, and nothing else.
use cedana_image_streamer.Prelude.{
  ℕ, zero, suc, ◌+◌, ◌≡◌, ◌≤◌, refl, ap, ◌∙◌, none, some, List, [], ◌∷◌, ◌++◌, length,
  length-append, Result, ok, All, arith, inl, inr,
}
use cedana_image_streamer.System.{System}
use cedana_image_streamer.ImageStore.{ImageStore}
use cedana_image_streamer.Stream.{Piece}
use cedana_image_streamer.Extract.{
  Shard, PendingMarker, ImageDeserializer, get_next_in_order_marker, process_marker, process_loop,
  process_pending_markers,
}
use cedana_image_streamer.Extract.Sink.{Output}
use cedana_image_streamer.Extract.Replay.{TakesExactly}
use cedana_image_streamer.Extract.Invariant.{Inv, IsSettled}
use cedana_image_streamer.Extract.Order.{pending_late, get_next_cases}
use cedana_image_streamer.Extract.Process.{ReplaysTo, next-Round}

-- A state between two rounds of the main loop, from which the replay still ends in `o'`.
pub record Between {Store File : Type 0} (sys : System) (ops : ImageStore Store File)
    (o' : Output Store File) (d : ImageDeserializer Store File) (todo : List Piece) : Type 0 where
  pub inv : Inv sys d todo
  pub replays : ReplaysTo ops d.output d.image_eof_seen todo o'

-- The rounds that the main loop still needs: one for each piece and one for each shard that waits.
abbrev pub rounds : {Store File : Type 0} → ImageDeserializer Store File → List Piece → ℕ
rounds d todo = length todo + length d.shards + length d.readable_shards

module _ {Store File : Type 0} (sys : System) (ops : ImageStore Store File) (law : TakesExactly ops)
    (o' : Output Store File) where
  -- The result of processing all that is due.
  abbrev pub Settles :
      ImageDeserializer Store File → List Piece → Result (ImageDeserializer Store File) → Type 0
  Settles d todo r =
      (d' : ImageDeserializer Store File) × (todo' : List Piece) × (r ≡ ok d')
      × Between sys ops o' d' todo'
      × IsSettled d'
      × (rounds d' todo' ≡ rounds d todo)

  loop_step :
      (fuel : ℕ) (d d1 d' : ImageDeserializer Store File) (m : PendingMarker) (s : Shard)
      → get_next_in_order_marker d ≡ (some m, d1)
      → process_marker sys ops d1 m.marker m.shard ≡ ok (d', s)
      → process_loop sys ops (suc fuel) (get_next_in_order_marker d)
        ≡ process_loop sys ops fuel (
            get_next_in_order_marker (record d' { seq = d'.seq + 1; shards = d'.shards ++ s ∷ [] }))
  unfolding process_loop
  loop_step fuel d d1 d' m s e e' = rw (e, e')

  late :
      (d : ImageDeserializer Store File) (todo : List Piece)
      → Between sys ops o' d todo
      → All (λ m. d.seq ≤ m.marker.seq) d.pending_markers
  late d todo b = pending_late sys.codec d.seq todo d.pending_markers b.inv.numbered b.inv.pending

  loop_end :
      (fuel : ℕ) (d : ImageDeserializer Store File)
      → get_next_in_order_marker d ≡ (none, d)
      → process_loop sys ops fuel (get_next_in_order_marker d) ≡ ok d
  unfolding process_loop
  loop_end fuel d e = rw e

  process_loop-Settles :
      (fuel : ℕ) (d : ImageDeserializer Store File) (todo : List Piece)
      → Between sys ops o' d todo
      → length d.pending_markers ≤ fuel
      → Settles d todo (process_loop sys ops fuel (get_next_in_order_marker d))
  process_loop-Settles zero d todo b h = elim (get_next_cases d (late d todo b)) [
    | inl (e, settled) ↦ (d, todo, loop_end zero d e, b, settled, refl)
    | inr (front, m, back, e, parts, due) ↦
        absurd (omega (arith, ap length parts, length-append front (m ∷ back)))
  ]
  process_loop-Settles (suc fuel) d todo b h = elim (get_next_cases d (late d todo b)) [
    | inl (e, settled) ↦ (d, todo, loop_end (suc fuel) d e, b, settled, refl)
    | inr (front, m, back, e, parts, due) ↦
        let (rest, o, eof, s, len, e1, inv, r) =
          next-Round sys ops law d front back m parts o' todo b.inv b.replays due in
        let after = record d {
          pending_markers = front ++ back;
          output = o;
          image_eof_seen = eof;
          seq = d.seq + 1;
          shards = d.shards ++ s ∷ [];
        } in
        let (d', todo', e2, b', settled, balance) =
          process_loop-Settles fuel after rest (record { inv = inv; replays = r })
            (omega
              (arith, ap length parts, length-append front (m ∷ back), length-append front back)) in
        (
          d',
          todo',
          loop_step fuel d _ _ m s e e1 ∙ e2,
          b',
          settled,
          balance ∙ omega (arith, len, length-append d.shards (s ∷ [])),
        )
  ]

  -- From a state between two rounds, whatever is pending, the loop over the pending markers ends, and
  -- leaves no pending marker that is next in order.
  pub process_pending_markers-Settles :
      (d : ImageDeserializer Store File) (todo : List Piece)
      → Between sys ops o' d todo
      → Settles d todo (process_pending_markers sys ops d)
  unfolding process_pending_markers
  process_pending_markers-Settles d todo b =
      process_loop-Settles (length d.pending_markers) d todo b (omega arith)
