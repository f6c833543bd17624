-- ===== src/Transfer.antt =====
-- src/capture.rs and src/extract.rs together: what a capture has written to its shards is an image for the
-- extraction that reads them.
use cedana_image_streamer.Prelude.{ℕ, ◌≤◌, ◌≡◌, refl, ◌∙◌, List, [], ◌∷◌, ◌++◌, some, true, ok, All}
use cedana_image_streamer.Image.{image_eof}
use cedana_image_streamer.System.{System}
use cedana_image_streamer.Stream.{Piece, event, occurs}
use cedana_image_streamer.UnixPipe.{WritePipe, Errno}
use cedana_image_streamer.Poller.{Wait}
use cedana_image_streamer.Connection.{Connection}
use cedana_image_streamer.Capture.Session.{OpenFile, World, Session, capture}
use cedana_image_streamer.Capture.Writes.{pipes}
use cedana_image_streamer.Capture.Log.{Carries}
use cedana_image_streamer.Capture.Log
use cedana_image_streamer.Capture.Whole.{IsEmpty, capture-IsCaptured}
use cedana_image_streamer.Extract.{Shard}
use cedana_image_streamer.Extract.Invariant.{fds, IsQueued}
use cedana_image_streamer.Extract.InOrder.{IsImage}

-- The shards to read are the pipes that were written, descriptor for descriptor, and byte for byte.
abbrev pub Receives : List WritePipe → List Shard → Type 0
Receives [] [] = Unit
Receives [] (s ∷ ss) = ⊥
Receives (p ∷ ps) [] = ⊥
Receives (p ∷ ps) (s ∷ ss) = (s.pipe.fd ≡ p.fd) × (s.pipe.content ≡ p.written) × Receives ps ss

received_fds : (ps : List WritePipe) (ss : List Shard) → Receives ps ss → fds ss ≡ Log.fds ps
received_fds [] [] r = refl
received_fds [] (s ∷ ss) r = absurd r
received_fds (p ∷ ps) [] r = absurd r
received_fds (p ∷ ps) (s ∷ ss) (f, c, r) = rw (f, received_fds ps ss r) refl

module _ (sys : System) where
  received-IsQueued :
      (log : List Piece) (ps : List WritePipe) (ss : List Shard)
      → Receives ps ss
      → All (Carries sys.codec log) ps
      → All (IsQueued sys.codec log) ss
  received-IsQueued log [] [] r h = tt
  received-IsQueued log [] (s ∷ ss) r h = absurd r
  received-IsQueued log (p ∷ ps) [] r h = absurd r
  received-IsQueued log (p ∷ ps) (s ∷ ss) (f, c, r) h =
      (c ∙ rw f h.0, received-IsQueued log ps ss r h.1)

  -- Let a capture succeed that started with empty pipes, each with a descriptor of its own. Then shards that
  -- receive what it has written hold an image, whose last piece is the end of the image: whatever the
  -- clients sent, and in whatever order the descriptors became ready.
  pub capture-IsImage :
      (world : World) (set_capacity : ℕ → ℕ → Errno) (listener_fd : ℕ)
      (connections : List (ℕ × Connection)) (shard_pipes : List WritePipe)
      (ext_files : List (ℕ × OpenFile)) (fuel : ℕ) (waits : List Wait) (s : Session)
      (shards : List Shard)
      → All IsEmpty shard_pipes
      → ((j : ℕ) → occurs j (Log.fds shard_pipes) ≤ 1)
      → capture world sys set_capacity listener_fd connections shard_pipes ext_files fuel waits
        ≡ ok s
      → Receives (pipes s.img_serializer.shards) shards
      → (pieces : List Piece) × (last : Piece) × (event last ≡ (some (image_eof true), []))
        × IsImage sys shards (pieces ++ last ∷ [])
  capture-IsImage world set_capacity listener_fd connections shard_pipes ext_files fuel waits s
        shards h d e r =
      let (small, big, last, c) =
        capture-IsCaptured sys world set_capacity listener_fd connections shard_pipes ext_files fuel
          waits s h d e in
      let same = received_fds (pipes s.img_serializer.shards) shards r in
      (
        big,
        last,
        c.is_end,
        record {
          queued =
              received-IsQueued (big ++ last ∷ []) (pipes s.img_serializer.shards) shards r
                c.logged.streams;
          numbered = c.logged.numbered;
          fits = c.logged.fits;
          sized = c.sized;
          homes = rw same c.logged.homes;
          distinct = λ j. rw same (c.logged.distinct j);
        },
      )
