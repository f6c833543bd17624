-- ===== src/Tests/Wire.antt =====
-- Instances of the theorems on messages and pipes.
use cedana_image_streamer.Prelude.{
  ℕ, ◌*◌, ◌≡◌, ◌≢◌, ◌⊎◌, ◌≤◌, refl, Bytes, some, [], ◌∷◌, ◌++◌, length, take, drop, ok, out_of_fuel,
  ltb, if◌then◌else◌, All, arith,
}
use cedana_image_streamer.Image.{Marker, file_data}
use cedana_image_streamer.Util.{pb_read_next, pb_write}
use cedana_image_streamer.Util.RoundTrip.{pb_read_next-pb_write}
use cedana_image_streamer.UnixPipe.{
  Errno, done, eperm, write_all, splice_all, vmsplice_all, set_capacities, increase_capacity,
}
use cedana_image_streamer.UnixPipe.Splice.{
  Wrote, append_to, splice_all-Wrote, splice_all_open, vmsplice_all_open,
}
use cedana_image_streamer.UnixPipe.Capacity.{
  increase_capacity-ne-out_of_fuel, increase_capacity-eq-ok,
}
use cedana_image_streamer.Tests.Fixtures.{
  codec, codec-Decodes, kernel, kernel-Progresses, write_pipe,
}

abbrev marker : Marker
marker = record { seq = 3; body = some (file_data 9) }

abbrev before : Bytes
before = 1 ∷ 2 ∷ []

abbrev on_the_wire : Bytes
on_the_wire = 1 ∷ 2 ∷ 3 ∷ 0 ∷ 0 ∷ 0 ∷ 3 ∷ 2 ∷ 9 ∷ []

pb_write_marker :
    pb_write codec (λ buf bytes. ok (buf ++ bytes)) before marker ≡ ok (on_the_wire, 7)
unfolding pb_write
pb_write_marker = refl

pb_read_next-pb_write_example :
    pb_read_next codec (drop (length before) on_the_wire ++ 8 ∷ []) ≡ ok (some (marker, 7), 8 ∷ [])
pb_read_next-pb_write_example =
    pb_read_next-pb_write codec before marker (8 ∷ []) on_the_wire 7 codec-Decodes pb_write_marker

abbrev five : Bytes
five = 10 ∷ 11 ∷ 12 ∷ 13 ∷ 14 ∷ []

splice_all_open_example :
    splice_all kernel five (write_pipe 7) 3
    ≡ ok (13 ∷ 14 ∷ [], append_to (write_pipe 7) (10 ∷ 11 ∷ 12 ∷ []))
splice_all_open_example =
    splice_all_open kernel five (write_pipe 7) 3 kernel-Progresses (λ n. refl) (omega arith)

vmsplice_all_open_example :
    vmsplice_all kernel five (write_pipe 7) ≡ ok (append_to (write_pipe 7) five)
vmsplice_all_open_example =
    vmsplice_all_open kernel five (write_pipe 7) kernel-Progresses (λ n. refl)

spliced :
    splice_all kernel five (write_pipe 7) 3
    ≡ ok (13 ∷ 14 ∷ [], append_to (write_pipe 7) (10 ∷ 11 ∷ 12 ∷ []))
unfolding splice_all write_all
spliced = refl

splice_all-Wrote_example :
    (3 ≤ length five)
    × (13 ∷ 14 ∷ [] ≡ drop 3 five)
    × Wrote (write_pipe 7) (take 3 five) (append_to (write_pipe 7) (10 ∷ 11 ∷ 12 ∷ []))
splice_all-Wrote_example =
    splice_all-Wrote kernel five (write_pipe 7) 3 (13 ∷ 14 ∷ [])
      (append_to (write_pipe 7) (10 ∷ 11 ∷ 12 ∷ [])) spliced

-- The kernel allows 16 bytes for a pipe.
abbrev set_capacity : ℕ → ℕ → Errno
set_capacity fd capacity = if ltb 16 capacity then eperm else done

chosen : increase_capacity 4 set_capacity (7 ∷ 8 ∷ []) 50 ≡ ok 12
unfolding increase_capacity set_capacities
chosen = refl

increase_capacity-ne-out_of_fuel_example :
    increase_capacity 4 set_capacity (7 ∷ 8 ∷ []) 50 ≢ out_of_fuel
increase_capacity-ne-out_of_fuel_example =
    increase_capacity-ne-out_of_fuel 4 set_capacity (7 ∷ 8 ∷ []) 50

increase_capacity-eq-ok_example :
    All (λ fd. set_capacity fd 12 ≡ done) (7 ∷ 8 ∷ [])
    × (12 ≤ 50)
    × (◌≡◌ {A = ℕ} 12 50 ⊎ (4 ≤ 2 * 12))
increase_capacity-eq-ok_example = increase_capacity-eq-ok 4 set_capacity (7 ∷ 8 ∷ []) 50 12 chosen
