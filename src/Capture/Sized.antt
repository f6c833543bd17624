-- ===== src/Capture/Sized.antt =====
-- src/capture.rs: every marker says how much data follows it, and so the logs of the capture can be read
-- back.
use cedana_image_streamer.Prelude.{
  ℕ, zero, suc, ◌-◌, ◌≤◌, ◌≡◌, refl, ◌==◌, min, Bool-cases, inl, inr, Bool, true, false, Bytes,
  Option, none, some, List, [], ◌∷◌, map, length, length-take_le, length-drop, drop, All,
  All-append, ok, arith, subst, sym,
}
use cedana_image_streamer.Image.{Body}
use cedana_image_streamer.System.{System}
use cedana_image_streamer.Stream.{Piece, Event, event}
use cedana_image_streamer.Extract.Replay.{IsSized}
use cedana_image_streamer.Util.Files.{is_small_file}
use cedana_image_streamer.Capture.{
  ImageFile, ImageSerializer, chunk_max_data_size, drain_img_file, put,
}
use cedana_image_streamer.Capture.Drain.{
  Logs, grown, IsLoggedIn, Emits, filename_events, data_events, eof_events, drain_events,
  drain_img_file-Drained, put-IsLogged,
}

abbrev pub IsSizedEvent : Event → Type 0
IsSizedEvent e = IsSized e.0 e.1

filename_events-IsSized :
    (current : Option Bytes) (name : Bytes) → All IsSizedEvent (filename_events current name)
unfolding filename_events
filename_events-IsSized current name =
    elim (Bool-cases (cedana_image_streamer.Capture.is_current current name)) [
      | inl t ↦ rw t tt
      | inr f ↦ rw f (refl, tt)
    ]

data_events-IsSized :
    (limit fuel : ℕ) (pipe : Bytes) (n : ℕ)
    → n ≤ length pipe
    → All IsSizedEvent (data_events limit fuel pipe n)
unfolding data_events
data_events-IsSized limit fuel pipe zero h = tt
data_events-IsSized limit zero pipe (suc n) h = tt
data_events-IsSized limit (suc fuel) pipe (suc n) h =
    let size = min (suc n) limit in
    (
      sym (length-take_le size pipe (omega arith)),
      data_events-IsSized limit fuel (drop size pipe) (suc n - size)
          (omega (arith, length-drop size pipe)),
    )

eof_events-IsSized : (is_eof : Bool) → All IsSizedEvent (eof_events is_eof)
unfolding eof_events
eof_events-IsSized true = (refl, tt)
eof_events-IsSized false = tt

drain_events-IsSized :
    (limit : ℕ) (current : Option Bytes) (img_file : ImageFile)
    → All IsSizedEvent (drain_events limit current img_file)
unfolding drain_events
drain_events-IsSized limit current img_file =
    let n = length img_file.pipe in
    All-append IsSizedEvent (filename_events current img_file.name) _
      (filename_events-IsSized current img_file.name)
      (All-append IsSizedEvent (data_events limit n img_file.pipe n) _
        (data_events-IsSized limit n img_file.pipe n (omega arith)) (eof_events-IsSized (n == 0)))

abbrev pub IsSizedPiece : Piece → Type 0
IsSizedPiece p = IsSized p.marker.body p.payload

of_events : (ps : List Piece) → All IsSizedEvent (map event ps) → All IsSizedPiece ps
of_events [] h = tt
of_events (p ∷ ps) h = (h.0, of_events ps h.1)

grown-IsSized :
    (b : Bool) (logs : Logs) (ps : List Piece)
    → All IsSizedPiece logs.0 × All IsSizedPiece logs.1
    → All IsSizedPiece ps
    → All IsSizedPiece (grown b logs ps).0 × All IsSizedPiece (grown b logs ps).1
grown-IsSized true logs ps h k = (All-append IsSizedPiece logs.0 ps h.0 k, h.1)
grown-IsSized false logs ps h k = (h.0, All-append IsSizedPiece logs.1 ps h.1 k)

module _ (sys : System) where
  -- The shards carry logs whose pieces are as long as their markers say.
  abbrev pub IsReadable : ImageSerializer → Logs → Type 0
  IsReadable s logs = IsLoggedIn sys s logs × (All IsSizedPiece logs.0 × All IsSizedPiece logs.1)

  Emits-IsReadable :
      (b : Bool) (logs : Logs) (s' : ImageSerializer) (events : List Event)
      → All IsSizedPiece logs.0 × All IsSizedPiece logs.1
      → All IsSizedEvent events
      → Emits sys b logs s' events
      → (ps : List Piece) × (map event ps ≡ events) × IsReadable s' (grown b logs ps)
  Emits-IsReadable b logs s' events h k (ps, e, v) =
      (ps, e, (v, grown-IsSized b logs ps h (of_events ps (rw e k))))

  -- A drain adds the pieces of its events to the log of its kind.
  pub drain-IsReadable :
      (s : ImageSerializer) (img_file : ImageFile) (logs : Logs) (s' : ImageSerializer)
      (img_file' : ImageFile) (more : Bool)
      → IsReadable s logs
      → drain_img_file sys s img_file ≡ ok (s', img_file', more)
      → (ps : List Piece) × (map event ps
          ≡ drain_events (chunk_max_data_size sys s) s.current_filename img_file)
        × IsReadable s' (grown (is_small_file sys.is_match img_file.name) logs ps)
  drain-IsReadable s img_file logs s' img_file' more (v, h) e =
      Emits-IsReadable (is_small_file sys.is_match img_file.name) logs s' _ h
        (drain_events-IsSized (chunk_max_data_size sys s) s.current_filename img_file)
        (drain_img_file-Drained sys s img_file logs v s' img_file' more e).0

  -- A marker with no data.
  pub put-IsReadable :
      (b : Bool) (s : ImageSerializer) (body : Body) (logs : Logs) (s' : ImageSerializer)
      (left : Bytes)
      → IsReadable s logs
      → IsSized (some body) []
      → put sys s body none b ≡ ok (s', left)
      → (p : Piece) × (event p ≡ (some body, [])) × IsReadable s' (grown b logs (p ∷ []))
  put-IsReadable b s body logs s' left (v, h) sized e =
      let (p, q, r, k, l, n) = put-IsLogged sys b s body none logs s' left v e in
      (
        p,
        q,
        (
          r,
          grown-IsSized b logs (p ∷ []) h (subst (λ (z : Event). IsSizedEvent z) (sym q) sized, tt),
        ),
      )
