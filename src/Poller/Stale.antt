-- ===== src/Poller/Stale.antt =====
-- src/poller.rs: an event that is pending when its object is removed.
use cedana_image_streamer.Prelude.{
  ℕ, ◌≡◌, refl, false, pop-append_last, Option, none, some, List, [], ◌∷◌, ◌++◌, ok, panic, ensure,
  >>=-eq-ok, ok-injective, epoll_failed, invalid_key, arith, subst, ◌∙◌,
}
use cedana_image_streamer.Poller.{
  Wait, Poller, watches, remove_entry, remove, pop_event, entry, is_vacant, has_no_events, poll,
}
use cedana_image_streamer.Poller.Entries.{find, find-without}

has_events : (events : List ℕ) (key : ℕ) → has_no_events (events ++ key ∷ []) ≡ false
has_events [] key = refl
has_events (x ∷ xs) key = refl

module _ {T : Type 0} where
  remove_entry-find :
      (key : ℕ) (p p' : Poller T) (o : Option (ℕ × T)) (obj : T)
      → remove_entry key p o ≡ ok (obj, p')
      → (find key p'.slab ≡ none) × (p'.pending_events ≡ p.pending_events)
  unfolding remove_entry
  remove_entry-find key p p' none obj e = cc
  remove_entry-find key p p' (some (fd, obj')) obj e =
      let (u, e1, e2) = >>=-eq-ok (ensure (watches fd p.interest) epoll_failed) _ e in
      subst
        (λ (z : T × Poller T). (find key z.1.slab ≡ none) × (z.1.pending_events ≡ p.pending_events))
        (ok-injective e2) (ground (arith, find-without key key p.slab), refl)

  -- If an object is removed while its event is the next one pending, and other objects are left, then the
  -- next `poll` panics, whatever epoll_wait() would answer.
  pub remove-poll-panic :
      (p p' : Poller T) (waits : List Wait) (events : List ℕ) (key : ℕ) (obj : T)
      → p.pending_events ≡ events ++ key ∷ []
      → remove key p ≡ ok (obj, p')
      → is_vacant p'.slab ≡ false
      → poll waits p' ≡ panic invalid_key
  unfolding remove poll pop_event entry
  remove-poll-panic p p' waits events key obj h e occupied =
      let (missing, same) = remove_entry-find key p p' (find key p.slab) obj e in
      rw (occupied, same ∙ h, has_events events key, pop-append_last events key, missing) refl
