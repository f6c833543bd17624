-- ===== src/Capture/Halts.antt =====
-- src/capture.rs: the loops of a drain end, where no single write blocks for ever.
use cedana_image_streamer.Prelude.{
  ensure, ioctl_failed, ℕ, zero, suc, ◌-◌, ◌≤◌, refl, ◌≢◌, ◌==◌, min, Bool, Bool-cases, inl, inr,
  true, false, Bytes, Option, none, some, List, [], ◌∷◌, length, Result, ok, err, panic,
  out_of_fuel, ◌>>=◌, arith,
}
use cedana_image_streamer.Image.{filename, file_data, Body, Marker, Codec}
use cedana_image_streamer.Util.{pb_write}
use cedana_image_streamer.UnixPipe.{
  Kernel, WritePipe, write_all, fionread, moved, splice_loop, splice_all,
}
use cedana_image_streamer.System.{System, Laws}
use cedana_image_streamer.Capture.{
  ImageFile, Shard, ImageSerializer, Chunk, refresh_remaining_space, refresh_all, most_room,
  chunk_max_data_size, write_data, write_to_shard, refresh_if_short, write_chunk, is_current, put,
  maybe_write_filename_marker, drain_loop, drain_eof, drain_img_file,
}

abbrev Halts {ℓ} : {X : Type ℓ} → Result X → Type ℓ
Halts r = r ≢ out_of_fuel

>>=-Halts {ℓ κ} :
    {X : Type ℓ} {Y : Type κ} (step : Result X) (next : X → Result Y)
    → Halts step
    → ((x : X) → Halts (next x))
    → Halts (step >>= next)
>>=-Halts (ok x) next h k = k x
>>=-Halts (err reason) next h k = λ e. cc
>>=-Halts (panic cause) next h k = λ e. cc
>>=-Halts out_of_fuel next h k = λ e. h refl

ok-Halts {ℓ} : {X : Type ℓ} (x : X) → Halts (ok x)
ok-Halts x = λ e. cc

ensure-Halts : (b : Bool) → Halts (ensure b ioctl_failed)
ensure-Halts true = λ e. cc
ensure-Halts false = λ e. cc

write_all-Halts : (pipe : WritePipe) (bytes : Bytes) → Halts (write_all pipe bytes)
unfolding write_all
write_all-Halts pipe bytes = ground arith

pb_write-Halts :
    (c : Codec Marker) (pipe : WritePipe) (m : Marker) → Halts (pb_write c write_all pipe m)
unfolding pb_write
pb_write-Halts c pipe m =
    >>=-Halts _ _ (ground arith) (λ u. >>=-Halts _ _ (write_all-Halts pipe _) (λ dst. ok-Halts _))

splice_loop-Halts :
    (kernel : Kernel) (fuel : ℕ) (src : Bytes) (dst : WritePipe) (n : ℕ)
    → n ≤ fuel
    → Halts (splice_loop kernel fuel src dst n)
unfolding splice_loop
splice_loop-Halts kernel fuel src dst zero h = λ e. cc
splice_loop-Halts kernel zero src dst (suc n) h = absurd (omega arith)
splice_loop-Halts kernel (suc fuel) src dst (suc n) h =
    elim (Bool-cases (moved kernel (suc n) (length src) == 0)) [
      | inl t ↦ rw t (λ e. cc)
      | inr f ↦ rw f (
          >>=-Halts _ _ (write_all-Halts dst _) (λ dst'.
            splice_loop-Halts kernel fuel _ dst' (suc n - moved kernel (suc n) (length src))
              (ground arith)))
    ]

refresh_all-Halts :
    (now capacity : ℕ) (shards : List Shard) → Halts (refresh_all now capacity shards)
unfolding refresh_all refresh_remaining_space fionread
refresh_all-Halts now capacity [] = λ e. cc
refresh_all-Halts now capacity (s ∷ shards) =
    >>=-Halts _ _ (ground arith)
      (λ s'. >>=-Halts _ _ (refresh_all-Halts now capacity shards) (λ rest. ok-Halts _))

most_room-Halts : (shards : List Shard) → Halts (most_room shards)
unfolding most_room
most_room-Halts shards = ground arith

module _ (sys : System) where
  refresh_if_short-Halts :
      (now capacity space : ℕ) (shards : List Shard)
      → Halts (refresh_if_short sys now capacity space shards)
  unfolding refresh_if_short
  refresh_if_short-Halts now capacity space shards =
      >>=-Halts _ _ (most_room-Halts shards)
        (λ z. ground (arith, refresh_all-Halts now capacity shards))

  write_to_shard-Halts : (shard : Shard) (chunk : Chunk) → Halts (write_to_shard sys shard chunk)
  unfolding write_to_shard splice_all splice_loop
  write_to_shard-Halts shard chunk =
      >>=-Halts _ _ (pb_write-Halts sys.codec shard.pipe chunk.marker)
        (λ z. >>=-Halts _ _ (data-Halts chunk.content z.0) (λ y. ok-Halts _))
    where
      data-Halts :
          (content : Option (Bytes × ℕ)) (pipe : WritePipe) → Halts (write_data sys content pipe)
      data-Halts none pipe = λ e. cc
      data-Halts (some (src, size)) pipe =
          splice_loop-Halts sys.kernel size src pipe size (omega arith)

  put-Halts :
      (s : ImageSerializer) (body : Body) (content : Option (Bytes × ℕ)) (small : Bool)
      → Halts (put sys s body content small)
  unfolding put write_chunk
  put-Halts s body content true =
      >>=-Halts _ _ (write_to_shard-Halts s.small_file_shard _) (λ z. ok-Halts _)
  put-Halts s body content false =
      >>=-Halts _ _ (refresh_if_short-Halts s.seq s.shard_pipe_capacity _ s.shards) (λ shards.
        >>=-Halts _ _ (most_room-Halts shards)
          (λ z. >>=-Halts _ _ (write_to_shard-Halts z.1 _) (λ y. ok-Halts _)))

  filename-Halts :
      (s : ImageSerializer) (name : Bytes) (small : Bool)
      → Halts (maybe_write_filename_marker sys s name small)
  unfolding maybe_write_filename_marker
  filename-Halts s name small = elim (Bool-cases (is_current s.current_filename name)) [
    | inl t ↦ rw t (ok-Halts s)
    | inr f ↦ rw f (
        >>=-Halts _ _
          (put-Halts (record s { current_filename = some name }) (filename name) none small)
          (λ z. ok-Halts _))
  ]

  drain_loop-Halts :
      (fuel : ℕ) (s : ImageSerializer) (pipe : Bytes) (n : ℕ) (small : Bool)
      → Laws sys
      → n ≤ fuel
      → Halts (drain_loop sys fuel s pipe n small)
  unfolding drain_loop chunk_max_data_size
  drain_loop-Halts fuel s pipe zero small law h = ok-Halts _
  drain_loop-Halts zero s pipe (suc n) small law h = absurd (omega arith)
  drain_loop-Halts (suc fuel) s pipe (suc n) small law h =
      >>=-Halts _ _
        (put-Halts s (file_data (min (suc n) (chunk_max_data_size sys s)))
          (some (pipe, min (suc n) (chunk_max_data_size sys s))) small)
        (λ z.
          drain_loop-Halts fuel z.0 z.1 (suc n - min (suc n) (chunk_max_data_size sys s)) small law
            (omega (arith, law.page_pos)))

  drain_eof-Halts :
      (s : ImageSerializer) (name : Bytes) (small is_eof : Bool)
      → Halts (drain_eof sys s name small is_eof)
  unfolding drain_eof
  drain_eof-Halts s name small false = ok-Halts s
  drain_eof-Halts s name small true = >>=-Halts _ _ (put-Halts _ _ none small) (λ z. ok-Halts _)

  -- With a page of one byte at least and a kernel whose splice() makes progress, no loop of a drain of any
  -- image file goes on for ever, from any state: the drain answers a result, an error or a panic, or comes to a
  -- single write that blocks, since its reader never makes room (`write_blocks`).
  pub drain_img_file-ne-out_of_fuel :
      (s : ImageSerializer) (img_file : ImageFile)
      → Laws sys
      → drain_img_file sys s img_file ≢ out_of_fuel
  unfolding drain_img_file
  drain_img_file-ne-out_of_fuel s img_file law =
      >>=-Halts _ _ (ensure-Halts img_file.has_fionread) (λ u.
        >>=-Halts _ _ (filename-Halts s img_file.name _) (λ s1.
          >>=-Halts _ _
            (drain_loop-Halts (length img_file.pipe) s1 img_file.pipe (length img_file.pipe) _ law
              (omega arith))
            (λ z. >>=-Halts _ _ (drain_eof-Halts z.0 img_file.name _ _) (λ s3. ok-Halts _))))
