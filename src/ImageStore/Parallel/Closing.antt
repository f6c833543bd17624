-- ===== src/ImageStore/Parallel/Closing.antt =====
-- src/image_store/fs_parallel.rs: the small files come first. The store drops its sender of the small
-- files with the first large file.
use cedana_image_streamer.Prelude.{
  ◌≡◌, refl, Bool, true, false, Bytes, [], ◌∷◌, ok, panic, ◌>>=◌, >>=-eq-ok, assert, unwrap_none,
  ok-injective, subst,
}
use cedana_image_streamer.Util.Files.{is_small_file}
use cedana_image_streamer.ImageStore.Parallel.{
  FileSender, File, eof, create, insert, send_large, sent_or_fail,
}
use cedana_image_streamer.ImageStore.Parallel.Sends.{IsServed, with_sent, send-open}

module _ (is_match : Bytes → Bytes → Bool) where
  -- After the creation of a large file, a small file can neither be created nor inserted: both panic.
  pub create-closes :
      (s : FileSender) (large small : Bytes) (s' : FileSender) (file output : File)
      → is_small_file is_match large ≡ false
      → is_small_file is_match small ≡ true
      → create is_match s large ≡ ok (s', file)
      → (create is_match s' small ≡ panic unwrap_none)
        × (insert is_match s' small output ≡ panic unwrap_none)
  unfolding create insert
  create-closes s large small s' file output l m e =
      let (u, e1, e2) = >>=-eq-ok (assert s.has_sender unwrap_none) _ (rw l at e) in
      subst
        (λ (z : FileSender × File).
          (create is_match z.0 small ≡ panic unwrap_none)
          × (insert is_match z.0 small output ≡ panic unwrap_none))
        (ok-injective e2) (rw m (refl, refl))

  -- Let the receivers be there and the store hold its sender of large files. Creating a large file and
  -- inserting it succeeds, and sends the end of the file.
  pub create-insert :
      (s : FileSender) (name : Bytes) (output : File)
      → is_small_file is_match name ≡ false
      → s.has_sender ≡ true
      → IsServed s
      → (create is_match s name >>= λ z. insert is_match z.0 name output)
        ≡ ok (with_sent false ((name, eof) ∷ []) (record s { has_small_file_sender = false }))
  unfolding create insert send_large sent_or_fail
  create-insert s name output l o v =
      rw (l, o, send_large, send-open s.large_channel (name, eof) v.1) refl
