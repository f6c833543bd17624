-- ===== src/Main/Checks.antt =====
-- src/main.rs: what the checks of `do_main` let through.
use cedana_image_streamer.Prelude.{
  ℕ, suc, ◌+◌, ◌≤◌, ◌≡◌, ◌⊎◌, inl, inr, refl, leb, Bool, Bool-cases, true, false, ◌||◌, Bytes,
  Option, none, some, List, [], ◌∷◌, map, length, ℤ, Option-cases, ◌∙◌, Result, ok, err, ◌>>=◌,
  ◌>>◌, ensure, >>=-eq-ok, ok-injective, too_few_shards, only_when_serving, arith, ap, subst,
}
use cedana_image_streamer.Main.{
  Operation, capture, extract, serve, is_serve, Opts, no_remaps, no_limit, Action, captures,
  extracts, serves, action, new_pipe, open_shards, open_ext_files, do_main,
}

ensure-eq-ok :
    (b : Bool) (e : cedana_image_streamer.Prelude.Error) (u : Unit {0})
    → ensure b e ≡ ok u
    → b ≡ true
ensure-eq-ok true e u h = refl
ensure-eq-ok false e u h = cc

-- The options that go with the operation.
abbrev pub IsAllowed : Opts → Type 0
IsAllowed opts =
    (opts.operation ≡ serve) ⊎ ((opts.tcp_listen_remap ≡ []) × (opts.memory_limit ≡ none))

allowed :
    (op : Operation) (remaps : List (ℕ × ℕ)) (limit : Option ℕ)
    → (is_serve op || no_remaps remaps) ≡ true
    → (is_serve op || no_limit limit) ≡ true
    → (op ≡ serve) ⊎ ((remaps ≡ []) × (limit ≡ none))
allowed serve remaps limit h k = inl refl
allowed capture remaps limit h k = inr (ground arith, ground arith)
allowed extract remaps limit h k = inr (ground arith, ground arith)

-- The call that each operation stands for, with these pipes and options.
pub data IsCall {Pipe : Type 0} (opts : Opts) (pipes : List Pipe) (files : List (Bytes × Pipe))
    : Action Pipe → Type 0 where
  is_capture : opts.operation ≡ capture → IsCall opts pipes files (captures pipes files)
  is_extract : opts.operation ≡ extract → IsCall opts pipes files (extracts pipes files)
  is_serves :
      opts.operation ≡ serve
      → IsCall opts pipes files (serves pipes files opts.tcp_listen_remap opts.memory_limit)

action-IsCall :
    {Pipe : Type 0} (op : Operation) (opts : Opts) (pipes : List Pipe) (files : List (Bytes × Pipe))
    → opts.operation ≡ op
    → IsCall opts pipes files (action op pipes files opts)
unfolding action
action-IsCall capture opts pipes files e = is_capture e
action-IsCall extract opts pipes files e = is_extract e
action-IsCall serve opts pipes files e = is_serves e

module _ {Pipe : Type 0} (open_pipe : ℤ → Option Pipe) where
  -- Each pipe is that of the descriptor in its place.
  abbrev pub IsOpened : List ℤ → List Pipe → Type 0
  IsOpened fds pipes = map open_pipe fds ≡ map some pipes

  -- Each pipe is that of the descriptor in its place, under the name of that descriptor.
  abbrev pub IsNamed : List (Bytes × ℤ) → List (Bytes × Pipe) → Type 0
  IsNamed fds files =
      map {B = Bytes × Option Pipe} (λ f. (f.0, open_pipe f.1)) fds
      ≡ map {B = Bytes × Option Pipe} (λ f. (f.0, some f.1)) files

  new_pipe-eq-ok :
      (fd : ℤ) (pipe : Pipe) → new_pipe open_pipe fd ≡ ok pipe → open_pipe fd ≡ some pipe
  unfolding new_pipe
  new_pipe-eq-ok fd pipe e = elim (Option-cases (open_pipe fd)) [
    | inl n ↦ let h = (rw (new_pipe, n) at e) in cc
    | inr (p, k) ↦ k ∙ ap some (ok-injective (rw (new_pipe, k) at e))
  ]

  open_shards-IsOpened :
      (fds : List ℤ) (pipes : List Pipe) → open_shards open_pipe fds ≡ ok pipes → IsOpened fds pipes
  unfolding open_shards
  open_shards-IsOpened [] pipes e = rw (← ok-injective e) refl
  open_shards-IsOpened (fd ∷ fds) pipes e =
      let (p, e1, r1) = >>=-eq-ok (new_pipe open_pipe fd) _ e in
      let (ps, e2, r2) = >>=-eq-ok (open_shards open_pipe fds) _ r1 in
      rw (← ok-injective r2, new_pipe-eq-ok fd p e1, open_shards-IsOpened fds ps e2) refl

  open_ext_files-IsNamed :
      (fds : List (Bytes × ℤ)) (files : List (Bytes × Pipe))
      → open_ext_files open_pipe fds ≡ ok files
      → IsNamed fds files
  unfolding open_ext_files
  open_ext_files-IsNamed [] files e = rw (← ok-injective e) refl
  open_ext_files-IsNamed ((name, fd) ∷ fds) files e =
      let (p, e1, r1) = >>=-eq-ok (new_pipe open_pipe fd) _ e in
      let (fs, e2, r2) = >>=-eq-ok (open_ext_files open_pipe fds) _ r1 in
      rw (← ok-injective r2, new_pipe-eq-ok fd p e1, open_ext_files-IsNamed fds fs e2) refl

  length-open_shards :
      (fds : List ℤ) (pipes : List Pipe)
      → open_shards open_pipe fds ≡ ok pipes
      → length pipes ≡ length fds
  unfolding open_shards
  length-open_shards [] pipes e = rw (← ok-injective e) refl
  length-open_shards (fd ∷ fds) pipes e =
      let (p, e1, r1) = >>=-eq-ok (new_pipe open_pipe fd) _ e in
      let (ps, e2, r2) = >>=-eq-ok (open_shards open_pipe fds) _ r1 in
      rw (← ok-injective r2) (ap suc (length-open_shards fds ps e2))

  -- Where the command line is accepted, there are two shards at least, the call is the one of the operation,
  -- its pipes are those of the given descriptors, in order, with the names of the external files, and ports
  -- are remapped and the memory is limited only when serving.
  pub do_main-eq-ok :
      (opts : Opts) (a : Action Pipe)
      → do_main open_pipe opts ≡ ok a
      → (shard_pipes : List Pipe) × (ext_file_pipes : List (Bytes × Pipe)) × IsOpened opts.shard_fds
          shard_pipes
        × IsNamed opts.ext_file_fds ext_file_pipes
        × IsCall opts shard_pipes ext_file_pipes a
        × (2 ≤ length shard_pipes)
        × IsAllowed opts
  unfolding do_main
  do_main-eq-ok opts a e =
      let (u1, e1, r1) = >>=-eq-ok (ensure (leb 2 (length opts.shard_fds)) too_few_shards) _ e in
      let (pipes, e2, r2) = >>=-eq-ok (open_shards open_pipe opts.shard_fds) _ r1 in
      let (files, e3, r3) = >>=-eq-ok (open_ext_files open_pipe opts.ext_file_fds) _ r2 in
      let (u4, e4, r4) =
        >>=-eq-ok
          (ensure (is_serve opts.operation || no_remaps opts.tcp_listen_remap) only_when_serving) _
          r3 in
      let (u5, e5, r5) =
        >>=-eq-ok (ensure (is_serve opts.operation || no_limit opts.memory_limit) only_when_serving)
          _ r4 in
      let two : leb 2 (length opts.shard_fds) ≡ true = ensure-eq-ok _ _ u1 e1 in
      let len = length-open_shards opts.shard_fds pipes e2 in
      (
        pipes,
        files,
        open_shards-IsOpened opts.shard_fds pipes e2,
        open_ext_files-IsNamed opts.ext_file_fds files e3,
        subst (IsCall opts pipes files) (ok-injective r5)
            (action-IsCall opts.operation opts pipes files refl),
        ground (arith, len),
        allowed opts.operation opts.tcp_listen_remap opts.memory_limit (ensure-eq-ok _ _ u4 e4)
            (ensure-eq-ok _ _ u5 e5),
      )

  -- Such a command line is accepted.
  pub do_main_accepts :
      (opts : Opts) (shard_pipes : List Pipe) (ext_file_pipes : List (Bytes × Pipe))
      → 2 ≤ length opts.shard_fds
      → open_shards open_pipe opts.shard_fds ≡ ok shard_pipes
      → open_ext_files open_pipe opts.ext_file_fds ≡ ok ext_file_pipes
      → IsAllowed opts
      → do_main open_pipe opts ≡ ok (action opts.operation shard_pipes ext_file_pipes opts)
  unfolding do_main
  do_main_accepts opts pipes files h p q (inl s) =
      let two : leb 2 (length opts.shard_fds) ≡ true = ground arith in
      let t : is_serve opts.operation ≡ true = rw s refl in rw (two, p, q, t) refl
  do_main_accepts opts pipes files h p q (inr (r, l)) =
      let two : leb 2 (length opts.shard_fds) ≡ true = ground arith in
      elim (Bool-cases (is_serve opts.operation)) [
        | inl t ↦ rw (two, p, q, t) refl
        | inr f ↦
            let t : no_remaps opts.tcp_listen_remap ≡ true = rw r refl in
            let u : no_limit opts.memory_limit ≡ true = rw l refl in rw (two, p, q, f, t, u) refl
      ]
