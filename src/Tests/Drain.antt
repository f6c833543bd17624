-- ===== src/Tests/Drain.antt =====
-- A file of five bytes that the capture cuts into two chunks.
use cedana_image_streamer.Prelude.{
  ℤ, negsuc, ◌≤ℤ◌, All, List, ◌≢◌, ℕ, ◌≡◌, refl, ◌=?=◌, ◌-ℤ◌, Bool, true, pos, codes, none, [], ◌∷◌,
  Result, ok, err, panic, out_of_fuel, arith,
}
use cedana_image_streamer.Heap.{peek}
use cedana_image_streamer.Util.{pb_write}
use cedana_image_streamer.Util.Files.{is_small_file, starts_with, contains}
use cedana_image_streamer.Stream.{route}
use cedana_image_streamer.UnixPipe.{write_all, fionread, splice_all}
use cedana_image_streamer.Capture.{
  ImageFile, Shard, ImageSerializer, drain_img_file, most_room, shard_less,
}
use cedana_image_streamer.Capture.Log.{IsLogged}
use cedana_image_streamer.Capture.Drain.{Drained, drain_img_file-Drained}
use cedana_image_streamer.Capture.Choice.{most_room-greatest}
use cedana_image_streamer.Capture.Halts.{drain_img_file-ne-out_of_fuel}
use cedana_image_streamer.Tests.Fixtures.{sys-Laws, sys, write_pipe}

abbrev shard : ℕ → Shard
shard fd = record { pipe = write_pipe fd; remaining_space = pos 0; bytes_written = 0 }

abbrev start : ImageSerializer
start = record {
  small_file_shard = shard 6;
  small_file_seq = 0;
  shards = shard 7 ∷ shard 8 ∷ [];
  shard_pipe_capacity = 32;
  seq = 0;
  current_filename = none;
  current_file_size = 0;
  metadata = [];
}

abbrev img_file : ImageFile
img_file = record { pipe = 1 ∷ 2 ∷ 3 ∷ 4 ∷ 5 ∷ []; has_fionread = true; name = codes "pages-1" }

abbrev result : Result (ImageSerializer × ImageFile × Bool) → ImageSerializer
result (ok z) = z.0
result (err e) = start
result (panic p) = start
result out_of_fuel = start

abbrev drained : ImageSerializer
drained = result (drain_img_file sys start img_file)

drained_lem : drain_img_file sys start img_file ≡ ok (drained, record img_file { pipe = [] }, true)
unfolding drain_img_file is_small_file starts_with contains ◌=?=◌ ◌-ℤ◌ peek pb_write write_all
    fionread splice_all shard_less
drained_lem = refl

start-IsLogged : IsLogged sys start [] []
unfolding route
start-IsLogged = record {
  small_stream = refl;
  small_numbered = tt;
  small_count = refl;
  small_fits = tt;
  streams = (refl, (refl, tt));
  numbered = tt;
  count = refl;
  fits = tt;
  homes = tt;
  distinct = λ j. ground arith;
}

drain_img_file-Drained_example :
    Drained sys start img_file ([], []) (drained, record img_file { pipe = [] }, true)
drain_img_file-Drained_example =
    drain_img_file-Drained sys start img_file ([], []) start-IsLogged drained
      (record img_file { pipe = [] }) true drained_lem

drain_img_file-ne-out_of_fuel_example : drain_img_file sys start img_file ≢ out_of_fuel
drain_img_file-ne-out_of_fuel_example = drain_img_file-ne-out_of_fuel sys start img_file sys-Laws

abbrev with_room : ℕ → ℤ → Shard
with_room fd space = record { pipe = write_pipe fd; remaining_space = space; bytes_written = 0 }

abbrev three_shards : List Shard
three_shards = with_room 7 (pos 5) ∷ with_room 8 (pos 9) ∷ with_room 9 (negsuc 2) ∷ []

eight_first :
    most_room three_shards
    ≡ ok (with_room 7 (pos 5) ∷ [], with_room 8 (pos 9), with_room 9 (negsuc 2) ∷ [])
unfolding most_room peek shard_less
eight_first = refl

most_room-greatest_example :
    (with_room 7 (pos 5) ∷ with_room 8 (pos 9) ∷ with_room 9 (negsuc 2) ∷ [] ≡ three_shards)
    × All (λ t. t.remaining_space ≤ℤ pos 9) three_shards
most_room-greatest_example =
    most_room-greatest three_shards (with_room 7 (pos 5) ∷ []) (with_room 9 (negsuc 2) ∷ [])
      (with_room 8 (pos 9)) eight_first
