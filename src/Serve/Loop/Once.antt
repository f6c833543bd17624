-- ===== src/Serve/Loop/Once.antt =====
-- src/extract.rs, `serve_img()`: a file is handed out once. While it is being sent, no chunk of it waits
-- when a client is answered.
use cedana_image_streamer.Prelude.{
  ℕ, ◌≡◌, ◌≢◌, refl, Bool, Bool-cases, inl, inr, true, false, if◌then◌else◌, Bytes, ◌=?=◌, =?=_iff,
  =?=_refl, Option-cases, none, some, List, [], ◌∷◌, ◌++◌, map, All, All-append, Result, ok, err,
  >>=-eq-ok, ok-injective, requested_twice, subst, arith,
}
use cedana_image_streamer.Prelude.Map
use cedana_image_streamer.Prelude.Map.{Map, get-without}
use cedana_image_streamer.System.{System}
use cedana_image_streamer.Semaphore.{Semaphore}
use cedana_image_streamer.UnixPipe.{WritePipe}
use cedana_image_streamer.Poller.{Poller}
use cedana_image_streamer.Connection.{Connection, read_next_file_request}
use cedana_image_streamer.Serve.{send_over_chunks}
use cedana_image_streamer.Serve.State.{
  Chunks, World, Serving, PollType, client, Flushed, flush_pipes, flush,
}
use cedana_image_streamer.Serve.Loop.{
  is_in, has_star, stop_listener, serve_missing, serve_found, serve_file, serve_request, react,
}

abbrev pub Pipe : Type 0
Pipe = Bytes × WritePipe

abbrev pub names : List Pipe → List Bytes
names pipes = map (λ p. p.0) pipes

-- No chunk of a file waits.
abbrev pub IsAbsent : Map Chunks → Bytes → Type 0
IsAbsent store name = Map.get name store ≡ none

without-IsAbsent :
    (store : Map Chunks) (k name : Bytes)
    → IsAbsent store name
    → IsAbsent (Map.without k store) name
without-IsAbsent store k name h = ground (arith, get-without k name store)

without_self : (store : Map Chunks) (k : Bytes) → IsAbsent (Map.without k store) k
without_self store k = ground (arith, get-without k k store, =?=_refl k)

-- The client of every one of these pipes was told that the file is ready.
abbrev pub IsSent : List Bytes → List Pipe → Type 0
IsSent sent pipes = All (λ p. is_in p.0 sent ≡ true) pipes

module _ (sys : System) where
  -- What the walk does at its first pipe: the state `g` that the others start from.
  abbrev Steps : List Bytes → Pipe → List Pipe → Flushed → Flushed → Type 0
  Steps sent p pipes f f' =
      (g : Flushed) × (flush_pipes sys pipes g ≡ ok f')
      × IsAbsent g.store p.0
      × ((name : Bytes) → IsAbsent f.store name → IsAbsent g.store name)
      × IsSent sent g.open_pipes

  sent_over-Steps :
      (sent : List Bytes) (filename : Bytes) (pipes : List Pipe) (f f' : Flushed)
      (z : Bool × WritePipe × Semaphore)
      → is_in filename sent ≡ true
      → IsSent sent f.open_pipes
      → flush_pipes sys pipes (
          if z.0
          then record f {
            store = Map.without filename f.store;
            semaphore = z.2;
            closed = f.closed ++ (filename, z.1) ∷ [];
          }
          else record f {
            store = Map.without filename f.store;
            semaphore = z.2;
            open_pipes = f.open_pipes ++ (filename, z.1) ∷ [];
          })
        ≡ ok f'
      → (pipe : WritePipe) → Steps sent (filename, pipe) pipes f f'
  sent_over-Steps sent filename pipes f f' (true, pipe', semaphore) known k e pipe = (
    record f {
      store = Map.without filename f.store;
      semaphore = semaphore;
      closed = f.closed ++ (filename, pipe') ∷ [];
    },
    e,
    without_self f.store filename,
    λ name. without-IsAbsent f.store filename name,
    k,
  )
  sent_over-Steps sent filename pipes f f' (false, pipe', semaphore) known k e pipe = (
    record f {
      store = Map.without filename f.store;
      semaphore = semaphore;
      open_pipes = f.open_pipes ++ (filename, pipe') ∷ [];
    },
    e,
    without_self f.store filename,
    λ name. without-IsAbsent f.store filename name,
    All-append (λ (p : Pipe). is_in p.0 sent ≡ true) f.open_pipes ((filename, pipe') ∷ []) k
        (known, tt),
  )

  flush_pipes-Steps :
      (sent : List Bytes) (filename : Bytes) (pipe : WritePipe) (pipes : List Pipe) (f f' : Flushed)
      → is_in filename sent ≡ true
      → IsSent sent f.open_pipes
      → flush_pipes sys ((filename, pipe) ∷ pipes) f ≡ ok f'
      → Steps sent (filename, pipe) pipes f f'
  unfolding flush_pipes
  flush_pipes-Steps sent filename pipe pipes f f' known k e =
      elim (Option-cases (Map.get filename f.store)) [
        | inl n ↦ (
          record f { open_pipes = f.open_pipes ++ (filename, pipe) ∷ [] },
          (rw (flush_pipes, n) at e),
          n,
          (λ name h. h),
          All-append (λ (p : Pipe). is_in p.0 sent ≡ true) f.open_pipes ((filename, pipe) ∷ []) k
              (known, tt),
        )
        | inr (chunks, s) ↦
            let (z, e1, e2) =
              >>=-eq-ok (send_over_chunks sys filename chunks pipe f.semaphore) _
                (rw (flush_pipes, s) at e) in
            sent_over-Steps sent filename pipes f f' z known k e2 pipe
      ]

  -- After the walk no chunk waits of a file with an open pipe, and the pipes that stay open are known ones.
  flush_pipes-IsAbsent :
      (sent : List Bytes) (pipes : List Pipe) (f f' : Flushed)
      → IsSent sent pipes
      → IsSent sent f.open_pipes
      → flush_pipes sys pipes f ≡ ok f'
      → All (IsAbsent f'.store) (names pipes)
        × ((name : Bytes) → IsAbsent f.store name → IsAbsent f'.store name)
        × IsSent sent f'.open_pipes
  flush_pipes-IsAbsent sent [] f f' h k e =
      let q : ◌≡◌ {A = Result Flushed} (ok f) (ok f') = unfold flush_pipes in e in
      subst
        (λ (g : Flushed).
          Unit
          × ((name : Bytes) → IsAbsent f.store name → IsAbsent g.store name)
          × IsSent sent g.open_pipes)
        (ok-injective q) (tt, (λ name h. h), k)
  flush_pipes-IsAbsent sent ((filename, pipe) ∷ pipes) f f' h k e =
      let (g, e1, absent, keeps, known) = flush_pipes-Steps sent filename pipe pipes f f' h.0 k e in
      let (others, later, last) = flush_pipes-IsAbsent sent pipes g f' h.1 known e1 in
      ((later filename absent, others), (λ name a. later name (keeps name a)), last)

  -- A walk over the pipes that a client was told of.
  pub flush-IsSent :
      (s s' : Serving)
      → IsSent s.filenames_of_sent_files s.open_pipes
      → flush sys s ≡ ok s'
      → All (IsAbsent s'.store) (names s.open_pipes)
        × IsSent s'.filenames_of_sent_files s'.open_pipes
        × (s'.filenames_of_sent_files ≡ s.filenames_of_sent_files)
  unfolding flush
  flush-IsSent s s' h e =
      let (f, e1, e2) =
        >>=-eq-ok
          (flush_pipes sys s.open_pipes (record {
            store = s.store;
            open_pipes = [];
            closed = s.closed;
            semaphore = s.semaphore;
          }))
          _ e in
      let (absent, keeps, known) =
        flush_pipes-IsAbsent s.filenames_of_sent_files s.open_pipes _ f h tt e1 in
      subst
        (λ (t : Serving).
          All (IsAbsent t.store) (names s.open_pipes)
          × IsSent t.filenames_of_sent_files t.open_pipes
          × (t.filenames_of_sent_files ≡ s.filenames_of_sent_files))
        (ok-injective e2) (absent, known, refl)

All_is_in :
    (P : Bytes → Type 0) (xs : List Bytes) (name : Bytes) → is_in name xs ≡ true → All P xs → P name
unfolding is_in
All_is_in P [] name e h = cc
All_is_in P (x ∷ xs) name e h = elim (Bool-cases (x =?= name)) [
  | inl t ↦ subst P ((=?=_iff x name).0 t) h.0
  | inr f ↦ All_is_in P xs name (rw (is_in, f) at e) h.1
]

IsSent-names :
    (sent : List Bytes) (pipes : List Pipe)
    → IsSent sent pipes
    → All (λ name. is_in name sent ≡ true) (names pipes)
IsSent-names sent [] h = tt
IsSent-names sent (p ∷ pipes) h = (h.0, IsSent-names sent pipes h.1)

module _ (world : World) (sys : System) where
  -- A name that is neither a pattern nor the order to stop.
  abbrev pub IsFilename : Bytes → Type 0
  IsFilename name = (name ≢ []) × ((name =?= stop_listener) ≡ false) × (has_star name ≡ false)

  refused :
      (key : ℕ) (filename : Bytes) (conn : Connection) (s : Serving)
      → IsFilename filename
      → is_in filename world.file_list ≡ true
      → is_in filename s.filenames_of_sent_files ≡ true
      → IsAbsent s.store filename
      → serve_request world sys key (some filename) conn s ≡ err requested_twice
  unfolding serve_request serve_file serve_found serve_missing
  refused key [] conn s n a k h = absurd (n.0 refl)
  refused key (c ∷ cs) conn s (n, o, d) a k h =
      rw (serve_request, o, d, serve_file, a, h, serve_found, serve_missing, a, k) refl

  -- Let every open pipe be one that a client was told of, let a round start with an open pipe for a file of
  -- the image, and let its walk over the pipes succeed. When a client then asks for this file again, the
  -- program stops with an error, whatever the extraction has sent: the client does not get a part of the
  -- file that was meant for the first pipe.
  pub react_second_request :
      (s s' : Serving) (filename : Bytes) (key : ℕ) (conn conn' : Connection)
      (poller : Poller PollType)
      → IsSent s.filenames_of_sent_files s.open_pipes
      → flush sys s ≡ ok s'
      → is_in filename (names s.open_pipes) ≡ true
      → is_in filename world.file_list ≡ true
      → IsFilename filename
      → read_next_file_request world.messages conn ≡ ok (some filename, conn')
      → react world sys (some (key, client conn)) (record s' { poller = poller })
        ≡ err requested_twice
  unfolding react
  react_second_request s s' filename key conn conn' poller h e m a n r =
      let (absent, known, same) = flush-IsSent sys s s' h e in
      rw r (
        refused key filename conn' (record s' { poller = poller }) n a
          (rw same (
            All_is_in (λ name. is_in name s.filenames_of_sent_files ≡ true) (names s.open_pipes)
              filename m (IsSent-names s.filenames_of_sent_files s.open_pipes h)))
          (All_is_in (IsAbsent s'.store) (names s.open_pipes) filename m absent))
