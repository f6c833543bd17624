-- ===== src/UnixPipe/Splice.antt =====
-- The transfer loops move exactly the bytes that they are asked to move.
use cedana_image_streamer.Prelude.{
  ℕ, zero, suc, ◌+◌, ◌-◌, ◌≤◌, ◌<◌, ◌≡◌, refl, ◌==◌, false, Bytes, [], ◌++◌, length, take, drop, ok,
  >>=-eq-ok, arith, append-nil, append_assoc, Bool-cases, length-drop, sym, take-split, drop-split,
  drop_all, drop-add, take-append-drop, inl, inr, ◌∙◌,
}
use cedana_image_streamer.UnixPipe.{
  WritePipe, write_all, Kernel, moved, Progresses, splice_loop, splice_all, vmsplice_loop,
  vmsplice_all, takes,
}

-- `pipe'` is `pipe` with `bytes` written to it.
pub record Wrote (pipe : WritePipe) (bytes : Bytes) (pipe' : WritePipe) : Type 0 where
  pub written : pipe'.written ≡ pipe.written ++ bytes
  pub fd : pipe'.fd ≡ pipe.fd
  pub reader : pipe'.reader ≡ pipe.reader

pub write_all-Wrote :
    (pipe : WritePipe) (bytes : Bytes) (pipe' : WritePipe)
    → write_all pipe bytes ≡ ok pipe'
    → Wrote pipe bytes pipe'
unfolding write_all
write_all-Wrote pipe bytes pipe' e = ground arith

pub Wrote-nil : (pipe : WritePipe) → Wrote pipe [] pipe
Wrote-nil pipe = record { written = sym (append-nil pipe.written); fd = refl; reader = refl }

pub Wrote-append :
    {p q r : WritePipe} {a b : Bytes} → Wrote p a q → Wrote q b r → Wrote p (a ++ b) r
Wrote-append {p} {q} {r} {a} {b} w v = ground (arith, append_assoc p.written a b)

module _ (kernel : Kernel) where
  splice_loop-Wrote :
      (fuel : ℕ) (src : Bytes) (dst : WritePipe) (n : ℕ) (rest : Bytes) (dst' : WritePipe)
      → splice_loop kernel fuel src dst n ≡ ok (rest, dst')
      → (n ≤ length src) × (rest ≡ drop n src) × Wrote dst (take n src) dst'
  unfolding splice_loop
  splice_loop-Wrote fuel src dst zero rest dst' e =
      (omega arith, ground arith, ground (arith, append-nil dst.written))
  splice_loop-Wrote zero src dst (suc n) rest dst' e = cc
  splice_loop-Wrote (suc fuel) src dst (suc n) rest dst' e =
      elim (Bool-cases (moved kernel (suc n) (length src) == 0)) [
        | inl stop ↦ cc (rw stop at e)
        | inr go ↦
            let k = moved kernel (suc n) (length src) in
            let (mid, w, e') = >>=-eq-ok (write_all dst (take k src)) _ (rw go at e) in
            let (fits, left, more) =
              splice_loop-Wrote fuel (drop k src) mid (suc n - k) rest dst' e' in
            (
              omega (arith, length-drop k src),
              left ∙ drop-split k (suc n) src (omega arith),
              rw (← take-split k (suc n) src (omega arith))
                  (Wrote-append (write_all-Wrote dst (take k src) mid w) more),
            )
      ]

  -- A transfer that succeeds has moved the first `len` bytes of the source, in order, to the end of
  -- the destination, has left the rest in the source, and has changed nothing else.
  pub splice_all-Wrote :
      (src : Bytes) (dst : WritePipe) (len : ℕ) (rest : Bytes) (dst' : WritePipe)
      → splice_all kernel src dst len ≡ ok (rest, dst')
      → (len ≤ length src) × (rest ≡ drop len src) × Wrote dst (take len src) dst'
  unfolding splice_all
  splice_all-Wrote src dst len rest dst' e = splice_loop-Wrote len src dst len rest dst' e

-- The pipe's reader never closes it, and reads what is written.
abbrev pub IsOpen : WritePipe → Type 0
IsOpen pipe = (n : ℕ) → pipe.reader.answer n ≡ takes

abbrev pub append_to : WritePipe → Bytes → WritePipe
append_to pipe bytes = record pipe { written = pipe.written ++ bytes }

pub write_all_open :
    (pipe : WritePipe) (bytes : Bytes)
    → IsOpen pipe
    → write_all pipe bytes ≡ ok (append_to pipe bytes)
unfolding write_all
write_all_open pipe bytes h = ground (arith, h (length pipe.written + length bytes))

module _ (kernel : Kernel) where
  moved_pos :
      (n : ℕ) (src : Bytes)
      → Progresses kernel
      → suc n ≤ length src
      → 0 < moved kernel (suc n) (length src)
  moved_pos n src law h = omega (arith, law (suc n) (length src) (omega arith) (omega arith))

  splice_loop_open :
      (fuel : ℕ) (src : Bytes) (dst : WritePipe) (n : ℕ)
      → Progresses kernel
      → IsOpen dst
      → n ≤ length src
      → n ≤ fuel
      → splice_loop kernel fuel src dst n ≡ ok (drop n src, append_to dst (take n src))
  unfolding splice_loop
  splice_loop_open fuel src dst zero law open_dst h f = rw append-nil
  splice_loop_open zero src dst (suc n) law open_dst h f = absurd (omega arith)
  splice_loop_open (suc fuel) src dst (suc n) law open_dst h f =
      let k = moved kernel (suc n) (length src) in
      let k_pos : 0 < k = moved_pos n src law h in
      let go : (k == 0) ≡ false = ground arith in
      rw (go, write_all_open dst (take k src) open_dst)
        (splice_loop_open fuel (drop k src) (append_to dst (take k src)) (suc n - k) law open_dst
            (omega (arith, length-drop k src)) (omega arith)
          ∙ rw (
            drop-split k (suc n) src (omega arith),
            append_assoc,
            take-split k (suc n) src (omega arith),
          ))

  -- With a kernel that makes progress and an open destination a transfer of no more bytes than the
  -- source holds succeeds: the loop ends, and moves exactly those bytes.
  pub splice_all_open :
      (src : Bytes) (dst : WritePipe) (len : ℕ)
      → Progresses kernel
      → IsOpen dst
      → len ≤ length src
      → splice_all kernel src dst len ≡ ok (drop len src, append_to dst (take len src))
  unfolding splice_all
  splice_all_open src dst len law open_dst h =
      splice_loop_open len src dst len law open_dst h (omega arith)

  -- `offset` bytes are written, and `n` are not.
  vmsplice_loop_open :
      (fuel : ℕ) (content : Bytes) (dst : WritePipe) (offset n : ℕ)
      → Progresses kernel
      → IsOpen dst
      → offset + n ≡ length content
      → n ≤ fuel
      → vmsplice_loop kernel fuel content dst offset n ≡ ok (append_to dst (drop offset content))
  unfolding vmsplice_loop
  vmsplice_loop_open fuel content dst offset zero law open_dst h f =
      rw (drop_all offset content (omega arith), append-nil)
  vmsplice_loop_open zero content dst offset (suc n) law open_dst h f = absurd (omega arith)
  vmsplice_loop_open (suc fuel) content dst offset (suc n) law open_dst h f =
      let slice = drop offset content in
      let k = moved kernel (length slice) (length slice) in
      let len : length slice ≡ suc n = omega (arith, length-drop offset content) in
      let k_pos : 0 < k =
        omega (arith, law (length slice) (length slice) (omega arith) (omega arith)) in
      let go : (k == 0) ≡ false = ground arith in
      rw (go, write_all_open dst (take k slice) open_dst)
        (vmsplice_loop_open fuel content (append_to dst (take k slice)) (offset + k) (suc n - k) law
            open_dst (omega arith) (omega arith)
          ∙ rw (← drop-add offset k content, append_assoc, take-append-drop k slice))

  -- With a kernel that makes progress and an open pipe the whole buffer is written, in order.
  pub vmsplice_all_open :
      (content : Bytes) (dst : WritePipe)
      → Progresses kernel
      → IsOpen dst
      → vmsplice_all kernel content dst ≡ ok (append_to dst content)
  unfolding vmsplice_all
  vmsplice_all_open content dst law open_dst =
      vmsplice_loop_open (length content) content dst 0 (length content) law open_dst (omega arith)
        (omega arith)
