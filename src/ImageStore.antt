-- ===== src/ImageStore.antt =====
-- src/image_store/mod.rs: the interface between the extraction and the image stores.
--
-- `Store` holds all that an operation may change, also outside of the program (the disk, a channel),
-- so every operation takes it and answers the new one.
pub mod Mem
pub mod Overlay
pub mod Parallel
use cedana_image_streamer.Prelude.{ℕ, Bytes, Result}

-- The traits `ImageStore` and `ImageFile`. `write_all_from_pipe` takes the bytes of the shard's pipe
-- and a size, and answers what is left in the pipe.
pub record ImageStore (Store File : Type 0) : Type 0 where
  pub create : Store → Bytes → Result (Store × File)
  pub insert : Store → Bytes → File → Result Store
  pub write_all_from_pipe : Store → File → Bytes → ℕ → Result (Store × File × Bytes)
