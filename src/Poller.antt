-- ===== src/Poller.antt =====
-- src/poller.rs: `Poller`, which hands out the object of the next ready descriptor.
--
-- The slab (a crate) is its entries; which vacant key it gives out is a parameter (`vacant`). The set
-- of descriptors that epoll watches is a list of descriptors with their keys. What epoll_wait()
-- answers, call after call, is a list, which the state of the model carries along.
pub mod Entries
pub mod Valid
pub mod Stale
use cedana_image_streamer.Prelude.{
  ℕ, ◌==◌, if◌then◌else◌, Bool, pop, Option, none, some, List, [], ◌∷◌, ◌++◌, map, Result, ok, err,
  panic, out_of_fuel, ◌>>=◌, ◌>>◌, ensure, not, epoll_failed, invalid_key,
}
use Entries.{Slab, find, without, put, keys}

-- What epoll_wait() answers: EINTR, another error, or the keys of the ready descriptors.
pub data Wait : Type 0 where
  interrupted failed : Wait
  ready : List ℕ → Wait

pub record Poller {ℓ} (T : Type ℓ) : Type ℓ where
  pub interest : List (ℕ × ℕ)
  pub slab : Slab (ℕ × T)
  pub pending_events : List ℕ

abbrev pub watches : ℕ → List (ℕ × ℕ) → Bool
watches fd [] = Bool.false
watches fd ((fd', key) ∷ rest) = if fd' == fd then Bool.true else watches fd rest

abbrev pub unwatch : ℕ → List (ℕ × ℕ) → List (ℕ × ℕ)
unwatch fd [] = []
unwatch fd ((fd', key) ∷ rest) =
    let others = unwatch fd rest in if fd' == fd then others else (fd', key) ∷ others

-- `epoll_wait_no_intr`: what it answers, and the later answers. The list ends where the program still
-- waits.
unfoldable pub epoll_wait_no_intr : List Wait → Result (List ℕ × List Wait)
epoll_wait_no_intr [] = out_of_fuel
epoll_wait_no_intr (interrupted ∷ waits) = epoll_wait_no_intr waits
epoll_wait_no_intr (failed ∷ waits) = err epoll_failed
epoll_wait_no_intr (ready events ∷ waits) = ok (events, waits)

abbrev pub has_no_events : List ℕ → Bool
has_no_events [] = Bool.true
has_no_events (x ∷ xs) = Bool.false

module _ {ℓ} {T : Type ℓ} where
  -- `Poller::new`
  abbrev pub new : Poller T
  new = record { interest = []; slab = []; pending_events = [] }

  -- A descriptor that is watched already is refused by epoll_ctl() (EEXIST).
  unfoldable pub add : (List ℕ → ℕ) → ℕ → T → Poller T → Result (ℕ × Poller T)
  add vacant fd obj p = do
    let key = vacant (keys p.slab)
    ensure (not (watches fd p.interest)) epoll_failed
    ok (key, record p { interest = (fd, key) ∷ p.interest; slab = (key, (fd, obj)) ∷ p.slab })

  unfoldable pub remove_entry : ℕ → Poller T → Option (ℕ × T) → Result (T × Poller T)
  remove_entry key p none = panic invalid_key
  remove_entry key p (some (fd, obj)) = do
    ensure (watches fd p.interest) epoll_failed
    ok (obj, record p { interest = unwatch fd p.interest; slab = without key p.slab })

  -- `Slab::remove` panics on a vacant key.
  unfoldable pub remove : ℕ → Poller T → Result (T × Poller T)
  unfolding remove_entry
  remove key p = remove_entry key p (find key p.slab)

  -- `&mut self.slab[key]` panics on a vacant key.
  unfoldable pub entry : ℕ → Option (ℕ × T) → Result (ℕ × T)
  entry key none = panic invalid_key
  entry key (some (fd, obj)) = ok (key, obj)

  -- The last pending event, with its object.
  unfoldable pub pop_event : Poller T → Option (List ℕ × ℕ) → Result (Option (ℕ × T) × Poller T)
  unfolding entry
  pop_event p none = ok (none, p)
  pop_event p (some (events, key)) = do
    z ← entry key (find key p.slab)
    ok (some z, record p { pending_events = events })

  abbrev pub is_vacant : Slab (ℕ × T) → Bool
  is_vacant [] = Bool.true
  is_vacant (x ∷ xs) = Bool.false

  -- `poll`: the next ready object and its key. A timeout answers no events, and then there is none.
  unfoldable pub poll : List Wait → Poller T → Result (Option (ℕ × T) × Poller T × List Wait)
  unfolding epoll_wait_no_intr pop_event
  poll waits p =
      let wait = epoll_wait_no_intr waits >>= λ z.
      pop_event (record p { pending_events = z.0 }) (pop z.0) >>= λ y. ok (y.0, y.1, z.1) in
      let next = pop_event p (pop p.pending_events) >>= λ y. ok (y.0, y.1, waits) in
      if is_vacant p.slab
      then ok (none, p, waits)
      else if has_no_events p.pending_events
      then wait
      else next

  -- A change of the object that `poll` lent out.
  unfoldable pub update : ℕ → T → Poller T → Poller T
  update key obj p = record p { slab = put key obj p.slab }
