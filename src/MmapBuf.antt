-- ===== src/MmapBuf.antt =====
-- src/mmap_buf.rs: `MmapBuf`, a growable buffer over an anonymous mapping.
--
-- The mapping is a function from offsets to bytes; `len` of them belong to the buffer. A mapping that
-- the kernel refuses (mmap() failed) is not modelled.
pub mod Laws
use cedana_image_streamer.Prelude.{
  ℕ, zero, suc, ◌-◌, ◌==◌, leb, if◌then◌else◌, Bytes, [], ◌∷◌, length, Result, ok, panic, ◌>>=◌,
  ◌>>◌, assert, zero_capacity, beyond_capacity, length_mismatch,
}

pub record MmapBuf : Type 0 where
  pub memory : ℕ → ℕ
  pub len : ℕ
  pub capacity : ℕ

-- A fresh anonymous mapping holds zeros.
unfoldable pub with_capacity : ℕ → Result MmapBuf
with_capacity zero = panic zero_capacity
with_capacity (suc n) = ok (record { memory = λ i. 0; len = 0; capacity = suc n })

unfoldable pub resize : ℕ → MmapBuf → Result MmapBuf
resize len buf = assert (leb len buf.capacity) beyond_capacity >> ok (record buf { len = len })

-- `n` bytes of a mapping, from an offset on.
unfoldable pub window : (ℕ → ℕ) → ℕ → ℕ → Bytes
window memory offset zero = []
window memory offset (suc n) = memory offset ∷ window memory (suc offset) n

-- `&buf[..]`
unfoldable pub deref : MmapBuf → Bytes
unfolding window
deref buf = window buf.memory 0 buf.len

-- The mapping with some bytes written from an offset on.
unfoldable pub overwrite : (ℕ → ℕ) → ℕ → Bytes → ℕ → ℕ
overwrite memory offset [] = memory
overwrite memory offset (x ∷ xs) =
    overwrite (λ i. if i == offset then x else memory i) (suc offset) xs

-- `buf[offset..].copy_from_slice(src)`: the slices have to be of the same length.
unfoldable pub copy_from_slice : ℕ → Bytes → MmapBuf → Result MmapBuf
unfolding overwrite
copy_from_slice offset src buf =
    assert (length src == buf.len - offset) length_mismatch
    >> ok (record buf { memory = overwrite buf.memory offset src })
