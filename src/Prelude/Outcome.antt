-- ===== src/Prelude/Outcome.antt =====
-- What fallible code answers: a value, an `anyhow` error, or a panic (`assert!`, `unwrap`, `expect`).
use mathlib.Core.Path.{◌≡◌, refl}
use mathlib.Core.Bool.{Bool, true, false}

pub data Error : Type 0 where
  -- util.rs
  eof_unexpected decode_failed json_failed : Error
  -- unix_pipe.rs
  write_failed write_blocks ioctl_failed splice_failed set_capacity_failed : Error
  -- extract.rs
  unexpected_file_data unexpected_file_eof unexpected_image_eof malformed_marker : Error
  data_after_image_eof no_shards poll_failed : Error
  -- the image stores
  create_failed short_read send_failed requested_twice : Error
  -- image_patcher.rs
  no_header corrupted_header ports_not_found : Error
  -- main.rs
  bad_format not_an_integer not_a_pipe too_few_shards only_when_serving : Error
  -- poller.rs
  epoll_failed : Error
  -- connection.rs, util.rs
  no_fd accept_failed : Error

pub data Panic : Type 0 where
  vmsplice_returned_zero capacity_too_small : Panic
  oversized_protobuf invalid_key zero_capacity beyond_capacity unwrap_none assertion
        length_mismatch :
      Panic

-- `out_of_fuel` is no answer of the program: a loop of the model was given too few rounds.
pub data Result {ℓ} (A : Type ℓ) : Type ℓ where
  ok : A → Result A
  err : Error → Result A
  panic : Panic → Result A
  out_of_fuel : Result A

module _ {ℓ κ} {X : Type ℓ} {Y : Type κ} where
  infixl 5 ◌>>=◌
  abbrev pub ◌>>=◌ : Result X → (X → Result Y) → Result Y
  ok x >>= next = next x
  err reason >>= next = err reason
  panic cause >>= next = panic cause
  out_of_fuel >>= next = out_of_fuel

  -- A successful chain had a successful first step.
  pub >>=-eq-ok :
      (step : Result X) (next : X → Result Y) {y : Y}
      → (step >>= next) ≡ ok y
      → (x : X) × (step ≡ ok x) × (next x ≡ ok y)
  >>=-eq-ok (ok x) next e = (x, refl, e)
  >>=-eq-ok (err reason) next e = cc
  >>=-eq-ok (panic cause) next e = cc
  >>=-eq-ok out_of_fuel next e = cc

infixl 5 ◌>>◌
abbrev pub ◌>>◌ {ℓ} : {Y : Type ℓ} → Result (Unit {0}) → Result Y → Result Y
step >> next = step >>= λ done. next

-- `ensure!(test, error)`
abbrev pub ensure : Bool → Error → Result (Unit {0})
ensure true reason = ok tt
ensure false reason = err reason

-- `assert!(test)`
abbrev pub assert : Bool → Panic → Result (Unit {0})
assert true cause = ok tt
assert false cause = panic cause

pub ok-injective {ℓ} : {X : Type ℓ} {x y : X} → ok x ≡ ok y → x ≡ y
ok-injective e = cc
