-- ===== src/Poller/Valid.antt =====
-- src/poller.rs: as long as the pending events are those of registered objects, the poller answers
-- registered objects and does not panic.
use cedana_image_streamer.Prelude.{
  out_of_fuel, ℕ, epoll_failed, ◌≡◌, ◌≢◌, ◌≤◌, refl, Bool-cases, Option-cases, inl, inr, not, pop,
  pop-eq-some, Option, none, some, List, [], ◌∷◌, ◌++◌, All, All-map, All-left, All-right, Result,
  ok, err, panic, ◌>>=◌, ensure, >>=-eq-ok, ok-injective, arith, subst,
}
use cedana_image_streamer.Stream.{occurs}
use cedana_image_streamer.Stream.Laws.{occurs-append}
use cedana_image_streamer.Poller.{
  Wait, interrupted, failed, ready, Poller, watches, add, remove_entry, remove, epoll_wait_no_intr,
  entry, pop_event, is_vacant, has_no_events, poll,
}
use cedana_image_streamer.Poller.Entries.{Slab, find, without, keys, find-without}

module _ {T : Type 0} where
  -- Every pending event is that of an object in the slab.
  abbrev pub IsValid : Poller T → Type 0
  IsValid p = All (λ key. find key p.slab ≢ none) p.pending_events

  -- epoll_wait() reports what was registered, and each descriptor once.
  abbrev pub Reports : Poller T → List Wait → Type 0
  Reports p [] = Unit
  Reports p (interrupted ∷ waits) = Reports p waits
  Reports p (failed ∷ waits) = Unit
  Reports p (ready events ∷ waits) =
      All (λ key. find key p.slab ≢ none) events × ((j : ℕ) → occurs j events ≤ 1)

  -- What `poll` may answer: nothing, or an object that is registered, with its key. What is registered
  -- stays, and the events that are left are valid, and none is of that key.
  abbrev pub Polled : Poller T → Result (Option (ℕ × T) × Poller T × List Wait) → Type 0
  Polled p (ok (none, p', waits)) = (p'.slab ≡ p.slab) × (p'.interest ≡ p.interest) × IsValid p'
  Polled p (ok (some (key, obj), p', waits)) =
      ((fd : ℕ) × (find key p.slab ≡ some (fd, obj)))
      × (p'.slab ≡ p.slab)
      × (p'.interest ≡ p.interest)
      × IsValid p'
      × (occurs key p'.pending_events ≡ 0)
  Polled p (err reason) = Unit
  Polled p (panic cause) = ⊥
  Polled p out_of_fuel = Unit

  pop_event-Polled :
      (p : Poller T) (waits : List Wait)
      → IsValid p
      → ((j : ℕ) → occurs j p.pending_events ≤ 1)
      → Polled p (pop_event p (pop p.pending_events) >>= λ y. ok (y.0, y.1, waits))
  unfolding pop_event entry
  pop_event-Polled p waits v once = elim (Option-cases (pop p.pending_events)) [
    | inl e ↦ rw e (refl, refl, v)
    | inr ((front, key), e) ↦
        let split = pop-eq-some p.pending_events front key e in
        let v' : All (λ k. find k p.slab ≢ none) (front ++ key ∷ []) =
          subst (All (λ k. find k p.slab ≢ none)) split v in
        elim (Option-cases (find key p.slab)) [
          | inl missing ↦
              absurd ((All-right (λ k. find k p.slab ≢ none) front (key ∷ []) v').0 missing)
          | inr ((fd, obj), found) ↦
              rw (e, found)
                (
                  (fd, found),
                  refl,
                  refl,
                  All-left (λ k. find k p.slab ≢ none) front (key ∷ []) v',
                  ground (arith, occurs-append key front (key ∷ []), once key, split),
                )
        ]
  ]

  wait-Polled :
      (p : Poller T) (waits : List Wait)
      → Reports p waits
      → Polled p (
          epoll_wait_no_intr waits >>= λ z.
          pop_event (record p { pending_events = z.0 }) (pop z.0) >>= λ y. ok (y.0, y.1, z.1))
  unfolding epoll_wait_no_intr
  wait-Polled p [] r = tt
  wait-Polled p (interrupted ∷ waits) r = wait-Polled p waits r
  wait-Polled p (failed ∷ waits) r = tt
  wait-Polled p (ready events ∷ waits) r =
      pop_event-Polled (record p { pending_events = events }) waits r.0 r.1

  -- While the pending events are those of registered objects, each once, `poll` does not panic: it answers
  -- an object that is registered, with its key, or none, or an error, and the poller is valid again.
  pub poll-Polled :
      (p : Poller T) (waits : List Wait)
      → IsValid p
      → ((j : ℕ) → occurs j p.pending_events ≤ 1)
      → Reports p waits
      → Polled p (poll waits p)
  unfolding poll
  poll-Polled p waits v once r = elim (Bool-cases (is_vacant p.slab)) [
    | inl t ↦ rw t (refl, refl, v)
    | inr f ↦ elim (Bool-cases (has_no_events p.pending_events)) [
      | inl t ↦ rw (f, t) (wait-Polled p waits r)
      | inr g ↦ rw (f, g) (pop_event-Polled p waits v once)
    ]
  ]

  found-add :
      (key k : ℕ) (v : ℕ × T) (s : Slab (ℕ × T)) → find k s ≢ none → find k ((key, v) ∷ s) ≢ none
  unfolding find
  found-add key k v s h = ground arith

  -- A new object takes nothing from the valid events.
  pub add-IsValid :
      (vacant : List ℕ → ℕ) (fd key : ℕ) (obj : T) (p p' : Poller T)
      → IsValid p
      → add vacant fd obj p ≡ ok (key, p')
      → IsValid p'
  unfolding add
  add-IsValid vacant fd key obj p p' v e =
      let (u, e1, e2) = >>=-eq-ok (ensure (not (watches fd p.interest)) epoll_failed) _ e in
      subst (λ (z : ℕ × Poller T). IsValid z.1) (ok-injective e2)
        (All-map (λ k. find k p.slab ≢ none)
          (λ k. find k ((vacant (keys p.slab), (fd, obj)) ∷ p.slab) ≢ none) p.pending_events
          (λ k h. found-add (vacant (keys p.slab)) k (fd, obj) p.slab h) v)

  found-without :
      (key : ℕ) (s : Slab (ℕ × T)) (events : List ℕ)
      → occurs key events ≡ 0
      → All (λ k. find k s ≢ none) events
      → All (λ k. find k (without key s) ≢ none) events
  found-without key s [] h v = tt
  found-without key s (k ∷ events) h v =
      (ground (arith, find-without key k s, v.0), found-without key s events (ground arith) v.1)

  remove_entry-IsValid :
      (key : ℕ) (p : Poller T) (o : Option (ℕ × T)) (obj : T) (p' : Poller T)
      → IsValid p
      → occurs key p.pending_events ≡ 0
      → remove_entry key p o ≡ ok (obj, p')
      → IsValid p'
  unfolding remove_entry
  remove_entry-IsValid key p none obj p' v h e = cc
  remove_entry-IsValid key p (some (fd, obj')) obj p' v h e =
      let (u, e1, e2) = >>=-eq-ok (ensure (watches fd p.interest) epoll_failed) _ e in
      subst (λ (z : T × Poller T). IsValid z.1) (ok-injective e2)
        (found-without key p.slab p.pending_events h v)

  -- What `poll` has handed out may be removed: the events that are left stay valid.
  pub poll-remove-IsValid :
      (p p' p'' : Poller T) (waits waits' : List Wait) (key : ℕ) (obj obj' : T)
      → IsValid p
      → ((j : ℕ) → occurs j p.pending_events ≤ 1)
      → Reports p waits
      → poll waits p ≡ ok (some (key, obj), p', waits')
      → remove key p' ≡ ok (obj', p'')
      → IsValid p''
  unfolding remove
  poll-remove-IsValid p p' p'' waits waits' key obj obj' v once r e f =
      let polled : Polled p (ok (some (key, obj), p', waits')) =
        rw e at (poll-Polled p waits v once r) in
      remove_entry-IsValid key p' (find key p'.slab) obj' p'' polled.3 polled.4 f
