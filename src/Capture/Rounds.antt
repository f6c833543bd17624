-- ===== src/Capture/Rounds.antt =====
-- src/capture.rs, `capture()`: every round of its loop keeps what was written readable.
use cedana_image_streamer.Prelude.{
  ℕ, zero, suc, ◌≡◌, refl, Bool-cases, inl, inr, Bytes, ◌=?=◌, Option, none, some, List, [], ◌∷◌,
  Result, ok, ◌>>=◌, >>=-eq-ok, ok-injective,
}
use cedana_image_streamer.System.{System}
use cedana_image_streamer.Poller.{Poller, Wait, add, remove, poll, update}
use cedana_image_streamer.Connection.{Connection, read_next_file_request, recv_pipe}
use cedana_image_streamer.Capture.{ImageSerializer, drain_img_file}
use cedana_image_streamer.Capture.Session.{
  OpenFile, PollType, listener, client, image_file, World, Session, stop_listener, now_there,
  cpuinfo, notify_start, accept, open_file, forget, serve_request, drain_file, handle, capture_loop,
}
use cedana_image_streamer.Util.Files.{is_small_file}
use cedana_image_streamer.Capture.Drain.{Logs, grown}
use cedana_image_streamer.Capture.Sized.{IsReadable, drain-IsReadable}

notify_start-serializer :
    (name : Bytes) (s : Session) → (notify_start name s).img_serializer ≡ s.img_serializer
unfolding notify_start
notify_start-serializer name s = elim (Bool-cases (name =?= cpuinfo)) [
  | inl t ↦ rw t refl
  | inr f ↦ elim (Bool-cases s.started) [ inl t ↦ rw (f, t) refl | inr u ↦ rw (f, u) refl ]
]

module _ (world : World) where
  forget-serializer :
      (key : ℕ) (s s' : Session) → forget world key s ≡ ok s' → s'.img_serializer ≡ s.img_serializer
  unfolding forget
  forget-serializer key s s' e =
      let (z, e1, e2) = >>=-eq-ok (remove key s.poller) _ e in rw (← ok-injective e2) refl

  accept-serializer :
      (key : ℕ) (connections : List (ℕ × Connection)) (s s' : Session)
      → accept world key connections s ≡ ok s'
      → s'.img_serializer ≡ s.img_serializer
  unfolding accept
  accept-serializer key [] s s' e = cc
  accept-serializer key ((fd, conn) ∷ connections) s s' e =
      let (z, e1, e2) =
        >>=-eq-ok (add world.vacant fd (client conn) (update key (listener connections) s.poller)) _
          e in
      rw (← ok-injective e2) refl

  open_file-serializer :
      (key : ℕ) (name : Bytes) (conn : Connection) (s s' : Session)
      → open_file world key name conn s ≡ ok s'
      → s'.img_serializer ≡ s.img_serializer
  unfolding open_file
  open_file-serializer key name conn s s' e =
      let ((fd, arrivals, conn'), e1, e2) = >>=-eq-ok (recv_pipe world.open_pipe conn) _ e in
      let (z, e3, e4) =
        >>=-eq-ok
          (add world.vacant fd
            (image_file
              (record { name = name; arrivals = arrivals; has_fionread = world.has_fionread fd }))
            (update key (client conn') (notify_start name s).poller))
          _ e2 in
      rw (← ok-injective e4) (notify_start-serializer name s)

  serve_request-serializer :
      (key : ℕ) (request : Option Bytes) (conn : Connection) (s s' : Session)
      → serve_request world key request conn s ≡ ok s'
      → s'.img_serializer ≡ s.img_serializer
  unfolding serve_request
  serve_request-serializer key none conn s s' e = forget-serializer key s s' e
  serve_request-serializer key (some name) conn s s' e =
      elim (Bool-cases (name =?= stop_listener)) [
        | inl t ↦
            forget-serializer s.listener_key
              (record s { poller = update key (client conn) s.poller }) s' (rw t at e)
        | inr f ↦ open_file-serializer key name conn s s' (rw f at e)
      ]

  module _ (sys : System) where
    -- Some logs that can be read back are what was written.
    abbrev pub HasLogs : ImageSerializer → Type 0
    HasLogs t = (logs : Logs) × IsReadable sys t logs

    HasLogs-same :
        (s : Session) (t : ImageSerializer)
        → s.img_serializer ≡ t
        → HasLogs t
        → HasLogs s.img_serializer
    HasLogs-same s t e (logs, r) = (logs, rw e r)

    drain_file-HasLogs :
        (key : ℕ) (file : OpenFile) (s s' : Session)
        → HasLogs s.img_serializer
        → drain_file world sys key file s ≡ ok s'
        → HasLogs s'.img_serializer
    unfolding drain_file
    drain_file-HasLogs key file s s' (logs, r) e =
        let ((t, left, more), e1, e2) =
          >>=-eq-ok
            (drain_img_file sys s.img_serializer (record {
              pipe = now_there file.arrivals;
              has_fionread = file.has_fionread;
              name = file.name;
            }))
            _ e in
        let (ps, ev, r') = drain-IsReadable sys s.img_serializer _ logs t left more r e1 in
        HasLogs-same s' t
          (elim (Bool-cases more) [
            | inl y ↦ rw (← ok-injective (rw y at e2)) refl
            | inr n ↦ forget-serializer key _ s' (rw n at e2)
          ])
          (grown (is_small_file sys.is_match file.name) logs ps, r')

    handle-HasLogs :
        (key : ℕ) (obj : PollType) (s s' : Session)
        → HasLogs s.img_serializer
        → handle world sys key obj s ≡ ok s'
        → HasLogs s'.img_serializer
    unfolding handle
    handle-HasLogs key (listener connections) s s' h e =
        HasLogs-same s' s.img_serializer (accept-serializer key connections s s' e) h
    handle-HasLogs key (client conn) s s' h e =
        let ((request, conn'), e1, e2) =
          >>=-eq-ok (read_next_file_request world.messages conn) _ e in
        HasLogs-same s' s.img_serializer (serve_request-serializer key request conn' s s' e2) h
    handle-HasLogs key (image_file file) s s' h e = drain_file-HasLogs key file s s' h e

    -- One round, and the rounds behind it.
    round-HasLogs :
        (next : Session → Result Session) (s s' : Session) (found : Option (ℕ × PollType))
        (poller : Poller PollType)
        → ((t : Session) → HasLogs t.img_serializer → next t ≡ ok s' → HasLogs s'.img_serializer)
        → HasLogs s.img_serializer
        → elim found [
          | none ↦ ok (record s { poller = poller })
          | some z ↦ (handle world sys z.0 z.1 (record s { poller = poller }) >>= next)
        ]
          ≡ ok s'
        → HasLogs s'.img_serializer
    round-HasLogs next s s' none poller rest h e =
        HasLogs-same s' s.img_serializer (rw (← ok-injective e) refl) h
    round-HasLogs next s s' (some (key, obj)) poller rest h e =
        let (t, e1, e2) = >>=-eq-ok (handle world sys key obj (record s { poller = poller })) _ e in
        rest t (handle-HasLogs key obj (record s { poller = poller }) t h e1) e2

    -- The rounds keep what was written readable.
    pub capture_loop-HasLogs :
        (fuel : ℕ) (waits : List Wait) (s s' : Session)
        → HasLogs s.img_serializer
        → capture_loop world sys fuel waits s ≡ ok s'
        → HasLogs s'.img_serializer
    unfolding capture_loop
    capture_loop-HasLogs zero waits s s' h e = cc
    capture_loop-HasLogs (suc fuel) waits s s' h e =
        let ((found, poller, waits'), e1, e2) = >>=-eq-ok (poll waits s.poller) _ e in
        round-HasLogs (capture_loop world sys fuel waits') s s' found poller
          (λ t. capture_loop-HasLogs fuel waits' t s') h e2
