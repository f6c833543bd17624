-- ===== src/Semaphore.antt =====
-- src/semaphore.rs: the budget of bytes that may be held in memory while an image is served.
--
-- The mutex makes each operation one step, so the state is the count. A thread that waits on the
-- condition variable takes no step: `acquire` answers `none`. The counts are natural numbers, since the
-- program only asks for sizes.
use cedana_image_streamer.Prelude.{
  ℕ, ◌+◌, ◌-◌, ◌≤◌, ◌<◌, ◌≡◌, min, ltb, if◌then◌else◌, Option, none, some, arith, refl,
}

pub record Semaphore : Type 0 where
  pub count : ℕ
  pub start_val : ℕ

-- `Semaphore::new`
unfoldable pub new : ℕ → Semaphore
new count = record { count = count; start_val = count }

-- `none`: the count is too low, and the caller waits.
unfoldable pub acquire : ℕ → Semaphore → Option Semaphore
acquire want s = if ltb s.count want then none else some (record s { count = s.count - want })

unfoldable pub release : ℕ → Semaphore → Semaphore
release to_release s = record s { count = min (s.count + to_release) s.start_val }

-- What the threads can reach from a new semaphore, in any interleaving, with the number of bytes that
-- they hold. No thread gives back more than is held.
pub data Reach (limit : ℕ) : ℕ → Semaphore → Type 0 where
  started : Reach limit 0 (new limit)
  acquired :
      (held want : ℕ) (s s' : Semaphore)
      → Reach limit held s
      → acquire want s ≡ some s'
      → Reach limit (held + want) s'
  released :
      (held n : ℕ) (s : Semaphore) → Reach limit (held + n) s → Reach limit held (release n s)

-- What a step keeps: the bytes held and the bytes left make up the limit.
abbrev IsBalanced : ℕ → ℕ → Semaphore → Type 0
IsBalanced limit held s = (held + s.count ≡ limit) × (s.start_val ≡ limit)

acquire-IsBalanced :
    (limit held want : ℕ) (s s' : Semaphore)
    → IsBalanced limit held s
    → acquire want s ≡ some s'
    → IsBalanced limit (held + want) s'
unfolding acquire
acquire-IsBalanced limit held want s s' (b, v) e = ground arith

-- In every state that the threads can reach, in any interleaving, the bytes held and the count make up the
-- limit, so that no more than the limit is held, and no byte is lost in `release`.
pub Reach-balanced :
    (limit held : ℕ) (s : Semaphore)
    → Reach limit held s
    → (held + s.count ≡ limit) × (s.start_val ≡ limit)
unfolding new release
Reach-balanced limit _ _ started = (omega arith, refl)
Reach-balanced limit _ _ (acquired held want s s' r e) =
    acquire-IsBalanced limit held want s s' (Reach-balanced limit held s r) e
Reach-balanced limit _ _ (released held n s r) =
    let (b, v) = Reach-balanced limit (held + n) s r in (omega (arith, v), v)

-- A request for more than the limit waits in every state that the threads can reach: no release lets it
-- through.
pub acquire_over_limit :
    (limit want held : ℕ) (s : Semaphore)
    → limit < want
    → Reach limit held s
    → acquire want s ≡ none
unfolding acquire
acquire_over_limit limit want held s h r =
    let (b, v) = Reach-balanced limit held s r in ground arith

-- A request that fits in the limit beside the bytes that are held does not wait.
pub acquire_within_limit :
    (limit want held : ℕ) (s : Semaphore)
    → held + want ≤ limit
    → Reach limit held s
    → acquire want s ≡ some (record s { count = s.count - want })
unfolding acquire
acquire_within_limit limit want held s h r =
    let (b, v) = Reach-balanced limit held s r in ground arith
