-- ===== src/Serve/Loop/Hangup.antt =====
-- src/extract.rs, `serve_img()`: a client that has hung up stays in the poller, and its descriptor stays
-- ready.
use cedana_image_streamer.Prelude.{
  ℕ, zero, suc, ◌≡◌, refl, Bool-cases, inl, inr, true, false, if◌then◌else◌, none, some, List, [],
  ◌∷◌, ok, out_of_fuel, pop, arith,
}
use cedana_image_streamer.System.{System}
use cedana_image_streamer.Util.{pb_read_next, read_bytes_next, pb_read_body}
use cedana_image_streamer.Poller.{
  Poller, Wait, ready, poll, epoll_wait_no_intr, pop_event, entry, is_vacant, update,
}
use cedana_image_streamer.Poller.Entries.{Slab, find, put}
use cedana_image_streamer.Connection.{Messages, Connection, read_next_file_request}
use cedana_image_streamer.Serve.State.{
  World, Serving, PollType, client, Received, receive, flush, flush_pipes, with_client,
}
use cedana_image_streamer.Serve.Loop.{serve_request, react, round, serve_loop}

-- The peer has closed the connection, and all that it sent was read.
abbrev pub IsClosed : Connection → Type 0
IsClosed conn = conn.incoming ≡ []

read-IsClosed :
    (messages : Messages) (conn : Connection)
    → IsClosed conn
    → read_next_file_request messages conn ≡ ok (none, record conn { incoming = [] })
unfolding read_next_file_request pb_read_next read_bytes_next pb_read_body
read-IsClosed messages conn h = rw h refl

find-put :
    (key fd : ℕ) (old obj : PollType) (slab : Slab (ℕ × PollType))
    → find key slab ≡ some (fd, old)
    → find key (put key obj slab) ≡ some (fd, obj)
unfolding find put
find-put key fd old obj [] e = cc
find-put key fd old obj ((k, (fd', o)) ∷ slab) e = ground (arith, find-put key fd old obj slab)

not_vacant :
    (key : ℕ) (x : ℕ × PollType) (slab : Slab (ℕ × PollType))
    → find key slab ≡ some x
    → is_vacant slab ≡ false
unfolding find
not_vacant key x [] e = cc
not_vacant key x (y ∷ slab) e = refl

-- A client that has hung up is in the poller under this key, no file is being sent, and nothing more comes
-- from the extraction.
pub record IsHung (key fd : ℕ) (s : Serving) : Type 0 where
  pub conn : Connection
  pub closed : IsClosed conn
  pub polled : find key s.poller.slab ≡ some (fd, client conn)
  pub no_events : s.poller.pending_events ≡ []
  pub no_pipes : s.open_pipes ≡ []
  pub no_more : s.receiver_eof ≡ true

module _ (world : World) (sys : System) (key fd : ℕ) where
  poll-hung :
      (p : Poller PollType) (waits : List Wait) (conn : Connection)
      → find key p.slab ≡ some (fd, client conn)
      → p.pending_events ≡ []
      → poll (ready (key ∷ []) ∷ waits) p
        ≡ ok (some (key, client conn), record p { pending_events = [] }, waits)
  unfolding poll epoll_wait_no_intr pop_event entry pop
  poll-hung p waits conn f e = rw (e, not_vacant key (fd, client conn) p.slab f, f) refl

  flush-hung : (s : Serving) → s.open_pipes ≡ [] → flush sys s ≡ ok (record s { open_pipes = [] })
  unfolding flush flush_pipes
  flush-hung s e = rw e refl

  -- The state behind a round, with the fields that the round writes.
  abbrev after : Serving → Connection → Serving
  after s conn =
      with_client key (record conn { incoming = [] })
        (record s { open_pipes = []; poller = record s.poller { pending_events = [] } })

  received-hung :
      (s : Serving) (received : List Received)
      → s.receiver_eof ≡ true
      → (if s.receiver_eof then (s, received) else receive received s) ≡ (s, received)
  received-hung s received e = elim (Bool-cases s.receiver_eof) [ inl t ↦ simp t | inr f ↦ cc ]

  round-hung :
      (s : Serving) (waits : List Wait) (received : List Received) (h : IsHung key fd s)
      → round world sys (ready (key ∷ []) ∷ waits) received s
        ≡ ok (false, after s h.conn, waits, received)
  unfolding round react serve_request
  round-hung s waits received h =
      rw
        (
          received-hung s received h.no_more,
          flush-hung s h.no_pipes,
          poll-hung s.poller waits h.conn h.polled h.no_events,
          read-IsClosed world.messages h.conn h.closed,
        )
        refl

  after-IsHung : (s : Serving) (h : IsHung key fd s) → IsHung key fd (after s h.conn)
  unfolding update
  after-IsHung s h = record {
    conn = record h.conn { incoming = [] };
    closed = refl;
    polled =
        find-put key fd (client h.conn) (client (record h.conn { incoming = [] })) s.poller.slab
          h.polled;
    no_events = refl;
    no_pipes = refl;
    no_more = h.no_more;
  }

-- The answers of epoll_wait() while the descriptor of the client stays ready.
abbrev pub always_ready : ℕ → ℕ → List Wait
always_ready key zero = []
always_ready key (suc n) = ready (key ∷ []) ∷ always_ready key n

-- Let a client have hung up, let no file be open, and let all chunks be received. As long as epoll_wait()
-- reports the client's descriptor, which a closed peer keeps ready, the loop does not end, however many
-- rounds it makes, even if the listener was stopped: the test for the end stands only where nothing is ready.
pub serve_loop-never_ends :
    (world : World) (sys : System) (key fd rounds : ℕ) (received : List Received) (s : Serving)
    → IsHung key fd s
    → serve_loop world sys rounds (always_ready key rounds) received s ≡ out_of_fuel
unfolding serve_loop
serve_loop-never_ends world sys key fd zero received s h = refl
serve_loop-never_ends world sys key fd (suc n) received s h =
    rw (round-hung world sys key fd s (always_ready key n) received h) (
      serve_loop-never_ends world sys key fd n received (after world sys key fd s h.conn)
        (after-IsHung world sys key fd s h))
