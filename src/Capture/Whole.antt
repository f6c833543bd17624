-- ===== src/Capture/Whole.antt =====
-- src/capture.rs, `capture()` as a whole: what it has written when it ends.
use cedana_image_streamer.Prelude.{
  ℕ, ◌*◌, ◌≤◌, ◌≡◌, refl, sym, true, false, some, List, [], ◌∷◌, ◌++◌, map, ok, >>=-eq-ok,
  ok-injective, arith, subst, All, All-append,
}
use cedana_image_streamer.Image.{image_eof}
use cedana_image_streamer.System.{System}
use cedana_image_streamer.Stream.{Piece, Event, event, route, occurs}
use cedana_image_streamer.UnixPipe.{WritePipe, Errno, increase_capacity}
use cedana_image_streamer.Poller.{Poller, Wait, add, remove, poll, update}
use cedana_image_streamer.Poller
use cedana_image_streamer.Connection.{Connection}
use cedana_image_streamer.Capture.{
  ImageFile, ImageSerializer, Shard, new_shard, drain_img_file, write_image_eof,
}
use cedana_image_streamer.Capture
use cedana_image_streamer.Capture.Session.{
  OpenFile, listener, World, Session, socket_init, capture_loop, add_ext_files, capture,
}
use cedana_image_streamer.Capture.Writes.{pipes}
use cedana_image_streamer.Capture.Log.{IsLogged, Carries, fds}
use cedana_image_streamer.Capture.Drain.{Logs}
use cedana_image_streamer.Capture.Sized.{IsSizedEvent, IsSizedPiece, IsReadable}
use cedana_image_streamer.Capture.Rounds.{capture_loop-HasLogs}
use cedana_image_streamer.Capture.Finish.{write_image_eof-Finished}

-- A pipe that nothing was written to.
abbrev pub IsEmpty : WritePipe → Type 0
IsEmpty pipe = pipe.written ≡ []

pipes-new_shard : (ps : List WritePipe) → pipes (map new_shard ps) ≡ ps
unfolding new_shard
pipes-new_shard [] = refl
pipes-new_shard (p ∷ ps) = rw (pipes-new_shard ps) refl

module _ (sys : System) where
  empty-Carries : (ps : List WritePipe) → All IsEmpty ps → All (Carries sys.codec []) ps
  unfolding route
  empty-Carries [] h = tt
  empty-Carries (p ∷ ps) h = (h.0, empty-Carries ps h.1)

  new-IsLogged :
      (shard_pipes : List WritePipe) (capacity : ℕ) (s : ImageSerializer)
      → All IsEmpty shard_pipes
      → ((j : ℕ) → occurs j (fds shard_pipes) ≤ 1)
      → Capture.new (map new_shard shard_pipes) capacity ≡ ok s
      → IsLogged sys s [] []
  unfolding Capture.new new_shard
  new-IsLogged [] capacity s h d e = cc
  new-IsLogged (p ∷ []) capacity s h d e = cc
  new-IsLogged (p ∷ q ∷ ps) capacity s h d e =
      subst (λ (t : ImageSerializer). IsLogged sys t [] []) (ok-injective e)
        (record {
          small_stream = h.0;
          small_numbered = tt;
          small_count = refl;
          small_fits = tt;
          streams = rw (pipes-new_shard ps) (empty-Carries (q ∷ ps) h.1);
          numbered = tt;
          count = refl;
          fits = tt;
          homes = tt;
          distinct = λ j. rw (pipes-new_shard ps) (omega (arith, d j));
        })

  -- The streams of the shards are an image that can be read back: a log of the small files, and a log of
  -- the others that the end of the image closes.
  pub record IsCaptured (s : ImageSerializer) (small big : List Piece) (last : Piece) : Type 0 where
    pub logged : IsLogged sys s small (big ++ last ∷ [])
    pub sized : All IsSizedPiece (big ++ last ∷ [])
    pub is_end : event last ≡ (some (image_eof true), [])

  abbrev pub HasImage : ImageSerializer → Type 0
  HasImage s =
      (small : List Piece) × (big : List Piece) × (last : Piece) × IsCaptured s small big last

  finished-IsCaptured :
      (s s' : ImageSerializer) (logs : Logs)
      → IsReadable sys s logs
      → write_image_eof sys s ≡ ok s'
      → HasImage s'
  finished-IsCaptured s s' (small, big) (v, h) e =
      let (json, ps, p, j, q, l, v') = write_image_eof-Finished sys s small big s' v e in
      (
        small ++ ps,
        big,
        p,
        record {
          logged = v';
          sized =
              All-append IsSizedPiece big (p ∷ []) h.1
                (subst (λ (z : Event). IsSizedEvent z) (sym l) refl, tt);
          is_end = l;
        },
      )

  -- A capture that succeeds, from empty pipes with descriptors of their own, has written an image that can
  -- be read back, whatever the clients sent, in whatever order the descriptors became ready.
  pub capture-IsCaptured :
      (world : World) (set_capacity : ℕ → ℕ → Errno) (listener_fd : ℕ)
      (connections : List (ℕ × Connection)) (shard_pipes : List WritePipe)
      (ext_files : List (ℕ × OpenFile)) (fuel : ℕ) (waits : List Wait) (s : Session)
      → All IsEmpty shard_pipes
      → ((j : ℕ) → occurs j (fds shard_pipes) ≤ 1)
      → capture world sys set_capacity listener_fd connections shard_pipes ext_files fuel waits
        ≡ ok s
      → HasImage s.img_serializer
  unfolding capture
  capture-IsCaptured world set_capacity listener_fd connections shard_pipes ext_files fuel waits s h
        d e =
      let (capacity, e1, r1) =
        >>=-eq-ok
          (increase_capacity sys.page_size set_capacity (map (λ p. p.fd) shard_pipes) (1024 * 1024))
          _ e in
      let ((listener_key, poller), e2, r2) =
        >>=-eq-ok (add world.vacant listener_fd (listener connections) Poller.new) _ r1 in
      let (poller', e3, r3) = >>=-eq-ok (add_ext_files world sys ext_files poller) _ r2 in
      let (t, e4, r4) = >>=-eq-ok (Capture.new (map new_shard shard_pipes) capacity) _ r3 in
      let start : Session = record {
        poller = poller';
        listener_key = listener_key;
        img_serializer = t;
        started = false;
        progress = socket_init ∷ [];
      } in
      let (s1, e5, r5) = >>=-eq-ok (capture_loop world sys fuel waits start) _ r4 in
      let (t', e6, r6) = >>=-eq-ok (write_image_eof sys s1.img_serializer) _ r5 in
      let (logs, r) =
        capture_loop-HasLogs world sys fuel waits start s1
          (([], []), (new-IsLogged shard_pipes capacity t h d e4, (tt, tt))) e5 in
      subst (λ (z : Session). HasImage z.img_serializer) (ok-injective r6)
        (finished-IsCaptured s1.img_serializer t' logs r e6)
