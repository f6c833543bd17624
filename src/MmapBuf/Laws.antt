-- ===== src/MmapBuf/Laws.antt =====
-- src/mmap_buf.rs: a buffer that grows and is filled holds the old bytes and then the new ones.
use cedana_image_streamer.Prelude.{
  ℕ, zero, suc, ◌+◌, ◌≤◌, ◌<◌, ◌≡◌, refl, ◌==◌, if◌then◌else◌, Bytes, [], ◌∷◌, ◌++◌, length, ok,
  arith, ◌∙◌,
}
use cedana_image_streamer.MmapBuf.{
  MmapBuf, with_capacity, resize, window, deref, overwrite, copy_from_slice,
}

overwrite_below :
    (memory : ℕ → ℕ) (offset : ℕ) (xs : Bytes) (i : ℕ)
    → i < offset
    → overwrite memory offset xs i ≡ memory i
unfolding overwrite
overwrite_below memory offset [] i h = refl
overwrite_below memory offset (x ∷ xs) i h =
    overwrite_below (λ j. if j == offset then x else memory j) (suc offset) xs i (omega arith)
    ∙ ground arith

window-overwrite_below :
    (memory : ℕ → ℕ) (offset : ℕ) (xs : Bytes) (lo n : ℕ)
    → lo + n ≤ offset
    → window (overwrite memory offset xs) lo n ≡ window memory lo n
unfolding window
window-overwrite_below memory offset xs lo zero h = refl
window-overwrite_below memory offset xs lo (suc n) h = rw (
  overwrite_below memory offset xs lo (omega arith),
  window-overwrite_below memory offset xs (suc lo) n (omega arith),
)

window-overwrite :
    (memory : ℕ → ℕ) (offset : ℕ) (xs : Bytes)
    → window (overwrite memory offset xs) offset (length xs) ≡ xs
unfolding window overwrite
window-overwrite memory offset [] = refl
window-overwrite memory offset (x ∷ xs) =
    let memory' = λ (i : ℕ). if i == offset then x else memory i in
    let here : memory' offset ≡ x = ground arith in
    rw (
      overwrite_below memory' (suc offset) xs offset (omega arith),
      here,
      window-overwrite memory' (suc offset) xs,
    )

window-split :
    (memory : ℕ → ℕ) (lo n k : ℕ)
    → window memory lo (n + k) ≡ window memory lo n ++ window memory (lo + n) k
unfolding window
window-split memory lo zero k =
    let e : lo + 0 ≡ lo = omega arith in let z : 0 + k ≡ k = omega arith in rw (e, z)
window-split memory lo (suc n) k =
    let e : lo + suc n ≡ suc lo + n = omega arith in
    let z : suc n + k ≡ suc (n + k) = omega arith in rw (e, z, window-split memory (suc lo) n k)

length-window : (memory : ℕ → ℕ) (lo n : ℕ) → length (window memory lo n) ≡ n
unfolding window
length-window memory lo zero = refl
length-window memory lo (suc n) = rw (length-window memory (suc lo) n)

pub length-deref : (buf : MmapBuf) → length (deref buf) ≡ buf.len
unfolding deref
length-deref buf = length-window buf.memory 0 buf.len

-- The buffer after growing by `xs`.
abbrev pub grown : MmapBuf → Bytes → MmapBuf
grown buf xs = record buf { memory = overwrite buf.memory buf.len xs; len = buf.len + length xs }

pub deref-grown : (buf : MmapBuf) (xs : Bytes) → deref (grown buf xs) ≡ deref buf ++ xs
unfolding deref
deref-grown buf xs =
    let z : 0 + buf.len ≡ buf.len = omega arith in
    window-split (overwrite buf.memory buf.len xs) 0 buf.len (length xs)
    ∙ rw (
      z,
      window-overwrite_below buf.memory buf.len xs 0 buf.len (omega arith),
      window-overwrite buf.memory buf.len xs,
    )

-- `buf.resize(n)`, and then the new part filled.
pub resize_fits :
    (buf : MmapBuf) (n : ℕ) → n ≤ buf.capacity → resize n buf ≡ ok (record buf { len = n })
unfolding resize
resize_fits buf n h = ground arith

pub copy_from_slice_fits :
    (buf : MmapBuf) (xs : Bytes) (n : ℕ)
    → n ≡ buf.len + length xs
    → copy_from_slice buf.len xs (record buf { len = n }) ≡ ok (grown buf xs)
unfolding copy_from_slice
copy_from_slice_fits buf xs n h = ground arith

-- A new buffer.
abbrev pub empty_buf : ℕ → MmapBuf
empty_buf capacity = record { memory = λ i. 0; len = 0; capacity = capacity }

pub with_capacity_pos : (n : ℕ) → 0 < n → with_capacity n ≡ ok (empty_buf n)
unfolding with_capacity
with_capacity_pos zero h = absurd (omega arith)
with_capacity_pos (suc n) h = refl

pub deref-empty_buf : (n : ℕ) → deref (empty_buf n) ≡ []
unfolding deref window
deref-empty_buf n = refl
