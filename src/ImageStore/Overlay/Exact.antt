-- ===== src/ImageStore/Overlay/Exact.antt =====
-- src/image_store/fs_overlay.rs: a write to a store with overlays looks at no byte behind those that it
-- is told to take.
use cedana_image_streamer.Prelude.{
  ℕ, zero, suc, ◌+◌, ◌-◌, ◌≤◌, ◌<◌, ◌≡◌, refl, ap, ◌∙◌, sym, ◌==◌, Bool-cases, inl, inr, false,
  Bytes, [], ◌∷◌, ◌++◌, length, take, drop, take_all, length-append, ok, >>=-eq-ok, ok-injective,
  subst, arith, append-nil, append_assoc, length-take, length-drop, drop-split, take-split,
  drop-append_self, take-append_self,
}
use cedana_image_streamer.UnixPipe.{
  WritePipe, write_all, takes, Kernel, moved, Progresses, splice_loop, splice_all,
}
use cedana_image_streamer.UnixPipe.Splice.{append_to}
use cedana_image_streamer.ImageStore.{ImageStore}
use cedana_image_streamer.ImageStore.Overlay.{
  OverlayStore, OverlayFile, overlayed, underlying, write_all_from_pipe, overlay_store,
}
use cedana_image_streamer.Extract.Replay.{TakesExactly}

abbrev HasRoom : WritePipe → ℕ → Type 0
HasRoom pipe n = pipe.reader.answer (length pipe.written + n) ≡ takes

write_all-eq-ok :
    (pipe : WritePipe) (bytes : Bytes) (pipe' : WritePipe)
    → write_all pipe bytes ≡ ok pipe'
    → HasRoom pipe (length bytes) × (append_to pipe bytes ≡ pipe')
unfolding write_all
write_all-eq-ok pipe bytes pipe' e = ground arith

write_all_takes :
    (pipe : WritePipe) (bytes : Bytes)
    → HasRoom pipe (length bytes)
    → write_all pipe bytes ≡ ok (append_to pipe bytes)
unfolding write_all
write_all_takes pipe bytes h = rw (write_all, h) refl

-- Where a first write found room, and what is left finds room behind it, there is room for both.
later-HasRoom :
    (dst : WritePipe) (bytes : Bytes) (mid : WritePipe) (n left : ℕ)
    → length bytes + left ≡ n
    → HasRoom dst (length bytes)
    → append_to dst bytes ≡ mid
    → ((m : ℕ) → left ≡ suc m → HasRoom mid (suc m))
    → HasRoom dst n
later-HasRoom dst bytes mid n zero sum room same later =
    subst (λ (z : ℕ). HasRoom dst z) (omega arith) room
later-HasRoom dst bytes mid n (suc m) sum room same later =
    let total : length (append_to dst bytes).written + suc m ≡ length dst.written + n =
      omega (arith, length-append dst.written bytes) in
    let room' : HasRoom (append_to dst bytes) (suc m) =
      subst (λ (p : WritePipe). HasRoom p (suc m)) (sym same) (later m refl) in
    subst (λ (z : ℕ). dst.reader.answer z ≡ takes) total room'

module _ (kernel : Kernel) where
  -- A transfer that succeeds has found room for all that it moved.
  splice_loop-HasRoom :
      (fuel : ℕ) (src : Bytes) (dst : WritePipe) (n : ℕ) (rest : Bytes) (dst' : WritePipe)
      → splice_loop kernel fuel src dst (suc n) ≡ ok (rest, dst')
      → HasRoom dst (suc n)
  unfolding splice_loop
  splice_loop-HasRoom zero src dst n rest dst' e = cc
  splice_loop-HasRoom (suc fuel) src dst n rest dst' e =
      let k = moved kernel (suc n) (length src) in
      let len : length (take k src) ≡ k = omega (arith, length-take k src) in
      elim (Bool-cases (k == 0)) [
        | inl stop ↦ cc (rw stop at e)
        | inr go ↦
            let (mid, w, more) = >>=-eq-ok (write_all dst (take k src)) _ (rw go at e) in
            let (room, same) = write_all-eq-ok dst (take k src) mid w in
            let len : length (take k src) ≡ k = omega (arith, length-take k src) in
            later-HasRoom dst (take k src) mid (suc n) (suc n - k) (omega arith) room same
              (λ m f. splice_loop-HasRoom fuel (drop k src) mid m rest dst' (rw (← f) more))
      ]

  -- With room for all of it and a kernel that makes progress a transfer succeeds.
  splice_loop_takes :
      (fuel : ℕ) (src : Bytes) (dst : WritePipe) (n : ℕ)
      → Progresses kernel
      → HasRoom dst n
      → n ≤ length src
      → n ≤ fuel
      → splice_loop kernel fuel src dst n ≡ ok (drop n src, append_to dst (take n src))
  unfolding splice_loop
  splice_loop_takes fuel src dst zero law room h f = rw append-nil
  splice_loop_takes zero src dst (suc n) law room h f = absurd (omega arith)
  splice_loop_takes (suc fuel) src dst (suc n) law room h f =
      let k = moved kernel (suc n) (length src) in
      let k_pos : 0 < k = omega (arith, law (suc n) (length src) (omega arith) (omega arith)) in
      let go : (k == 0) ≡ false = ground arith in
      let len : length (take k src) ≡ k = omega (arith, length-take k src) in
      let now : HasRoom dst (length (take k src)) =
        dst.reader.takes_fewer (length dst.written + length (take k src))
          (length dst.written + suc n) (omega arith) room in
      let total : length dst.written + suc n
          ≡ length (append_to dst (take k src)).written + (suc n - k) =
        omega (arith, length-append dst.written (take k src)) in
      let room' : HasRoom (append_to dst (take k src)) (suc n - k) =
        subst (λ (z : ℕ). dst.reader.answer z ≡ takes) total room in
      rw (go, write_all_takes dst (take k src) now)
        (splice_loop_takes fuel (drop k src) (append_to dst (take k src)) (suc n - k) law room'
            (omega (arith, length-drop k src)) (omega arith)
          ∙ rw (
            drop-split k (suc n) src (omega arith),
            append_assoc,
            take-split k (suc n) src (omega arith),
          ))

  splice_all-append :
      (payload rest : Bytes) (dst : WritePipe) (left : Bytes) (dst' : WritePipe)
      → Progresses kernel
      → splice_all kernel payload dst (length payload) ≡ ok (left, dst')
      → splice_all kernel (payload ++ rest) dst (length payload) ≡ ok (rest, dst')
  unfolding splice_all
  splice_all-append [] rest dst left dst' law e =
      unfold splice_loop in (ap (λ (z : Bytes × WritePipe). ok (rest, z.1)) (ok-injective e))
  splice_all-append (c ∷ cs) rest dst left dst' law e =
      let payload = c ∷ cs in
      let n = length payload in
      let room : HasRoom dst n = splice_loop-HasRoom n payload dst (length cs) left dst' e in
      let alone = splice_loop_takes n payload dst n law room (omega arith) (omega arith) in
      let same : append_to dst (take n payload) ≡ dst' =
        ap (λ (z : Bytes × WritePipe). z.1) (ok-injective (sym alone ∙ e)) in
      splice_loop_takes n (payload ++ rest) dst n law room
        (omega (arith, length-append payload rest)) (omega arith)
      ∙ rw
          (
            drop-append_self payload rest,
            take-append_self payload rest,
            ← take_all n payload (omega arith),
            same,
          )
          refl

  -- A store with overlays, over any store that keeps the contract of the extraction and with a kernel that
  -- makes progress, keeps it: a write that succeeds on exactly the bytes asked for does the same with more
  -- bytes behind them, and leaves these in the pipe, also where splice() moves other portions then.
  pub overlay_store-TakesExactly :
      {Store File : Type 0} (ops : ImageStore Store File)
      → Progresses kernel
      → TakesExactly ops
      → TakesExactly (overlay_store kernel ops)
  unfolding write_all_from_pipe
  overlay_store-TakesExactly ops law under s (overlayed w) payload rest s' file' left e =
      let ((l, w'), e1, e2) = >>=-eq-ok (splice_all kernel payload w (length payload)) _ e in
      rw (splice_all-append payload rest w l w' law e1)
        (ap (λ (z : OverlayStore _ × OverlayFile _ × Bytes). ok (z.0, z.1, rest)) (ok-injective e2))
  overlay_store-TakesExactly ops law under s (underlying f) payload rest s' file' left e =
      let ((t, f', l), e1, e2) =
        >>=-eq-ok (ops.write_all_from_pipe s.underlying_store f payload (length payload)) _ e in
      rw (under s.underlying_store f payload rest t f' l e1)
        (ap (λ (z : OverlayStore _ × OverlayFile _ × Bytes). ok (z.0, z.1, rest)) (ok-injective e2))
