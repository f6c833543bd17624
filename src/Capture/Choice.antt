-- ===== src/Capture/Choice.antt =====
-- src/capture.rs: which shard a chunk goes to.
use cedana_image_streamer.Prelude.{
  ◌≡◌, true, false, Option-cases, inl, inr, some, List, ◌∷◌, ◌++◌, ok, ◌≤ℤ◌, All, All-map, arith,
}
use cedana_image_streamer.Heap.{peek}
use cedana_image_streamer.Heap.Laws.{peek-eq-some, peek-IsGreatest}
use cedana_image_streamer.Capture.{Shard, shard_less, most_room}

shard_less_below :
    (a b c : Shard) → shard_less b a ≡ false → shard_less c b ≡ false → shard_less c a ≡ false
unfolding shard_less
shard_less_below a b c h k = ground arith

shard_less_asym : (a b : Shard) → shard_less a b ≡ true → shard_less b a ≡ false
unfolding shard_less
shard_less_asym a b h = ground arith

shard_less_irrefl : (a : Shard) → shard_less a a ≡ false
unfolding shard_less
shard_less_irrefl a = ground arith

shard_less-≤ℤ : (s t : Shard) → shard_less s t ≡ false → t.remaining_space ≤ℤ s.remaining_space
unfolding shard_less
shard_less-≤ℤ s t h = ground arith

-- The shard that is picked for a chunk is one of the shards, between the others, and none of them has
-- more room.
pub most_room-greatest :
    (shards front back : List Shard) (shard : Shard)
    → most_room shards ≡ ok (front, shard, back)
    → (front ++ shard ∷ back ≡ shards)
      × All (λ t. t.remaining_space ≤ℤ shard.remaining_space) shards
unfolding most_room
most_room-greatest shards front back shard e = elim (Option-cases (peek shard_less shards)) [
  | inl n ↦ absurd (ground arith)
  | inr (z, h) ↦
      let h' : peek shard_less shards ≡ some (front, shard, back) = ground arith in
      (
        peek-eq-some shard_less shards front back shard h',
        All-map (λ t. shard_less shard t ≡ false) (λ t. t.remaining_space ≤ℤ shard.remaining_space)
            shards (λ t k. shard_less-≤ℤ shard t k)
            (peek-IsGreatest shard_less shard_less_below shard_less_asym shard_less_irrefl shards
              front back shard h'),
      )
]
