-- ===== src/Serve/Loop/Answers.antt =====
-- src/extract.rs, `serve_img()`: what a client is told when it asks for a file.
use cedana_image_streamer.Prelude.{
  ℕ, ◌≡◌, refl, ◌∙◌, ap, Bool, Bool-cases, Option-cases, inl, inr, true, false, Bytes, Option, none,
  some, List, [], ◌∷◌, Result, ok, err, ◌>>=◌, >>=-eq-ok, ok-injective, not_a_pipe, subst,
}
use cedana_image_streamer.Prelude.Map
use cedana_image_streamer.System.{System}
use cedana_image_streamer.Image.{Decodes}
use cedana_image_streamer.Poller.{update}
use cedana_image_streamer.Connection.{
  Connection, ReplyEntry, FileStatus, ready, not_ready, does_not_exist, recv_fd_parts, recv_fd,
  recv_pipe, status_of, send_file_reply,
}
use cedana_image_streamer.Connection.Replies.{Arrives, reply_frame}
use cedana_image_streamer.Serve.{send_over_chunks}
use cedana_image_streamer.Serve.State.{Chunks, World, Serving, client, with_client}
use cedana_image_streamer.Serve.Loop.{is_in, serve_chunks, serve_missing, serve_found, serve_file}

-- The reply for a file, by whether it is in the list of the files, what of it is there, and whether it was
-- sent before; and the files that are sent after it.
pub data Answers (name : Bytes) (listed : Bool) (there : Option Chunks) (sent : List Bytes)
    : ReplyEntry → List Bytes → Type 0 where
  unknown :
      listed ≡ false
      → Answers name listed there sent
          (record { exists = false; status = some does_not_exist })
          sent
  waits :
      listed ≡ true
      → there ≡ none
      → is_in name sent ≡ false
      → Answers name listed there sent (record { exists = true; status = some not_ready }) sent
  sends :
      (chunks : Chunks)
      → listed ≡ true
      → there ≡ some chunks
      → Answers name listed there sent (record { exists = true; status = some ready }) (name ∷ sent)

recv_pipe-outgoing :
    {Pipe : Type 0} (open_pipe : ℕ → Option Pipe) (c c' : Connection) (fd : ℕ) (pipe : Pipe)
    → recv_pipe open_pipe c ≡ ok (fd, pipe, c')
    → c.outgoing ≡ c'.outgoing
unfolding recv_pipe recv_fd recv_fd_parts
recv_pipe-outgoing {Pipe = Pipe} open_pipe c c' fd pipe e =
    let ((f, d), e1, e2) = >>=-eq-ok (recv_fd c) _ e in
    parts c.incoming c.passed_fds f d e1 ∙ rest f d e2
  where
    parts :
        (bytes : Bytes) (fds : List (Option ℕ)) (f : ℕ) (d : Connection)
        → recv_fd_parts bytes fds c ≡ ok (f, d)
        → c.outgoing ≡ d.outgoing
    parts (byte ∷ more) (some g ∷ fds) f d h =
        ap (λ (z : ℕ × Connection). z.1.outgoing) (ok-injective h)
    parts (byte ∷ more) (none ∷ fds) f d h = cc
    parts (byte ∷ more) [] f d h = cc
    parts [] fds f d h = cc

    rest :
        (f : ℕ) (d : Connection)
        → ◌≡◌ {A = Result (ℕ × Pipe × Connection)}
            (elim (open_pipe f) [ none ↦ err not_a_pipe | some p ↦ ok (f, p, d) ])
            (ok (fd, pipe, c'))
        → d.outgoing ≡ c'.outgoing
    rest f d h = elim (Option-cases (open_pipe f)) [
      | inl n ↦ cc (rw n at h)
      | inr (p, k) ↦ ap (λ (z : ℕ × Pipe × Connection). z.2.outgoing) (ok-injective (rw k at h))
    ]

module _ (world : World) (sys : System) (law : Decodes world.messages.reply) (key : ℕ)
    (name : Bytes) (conn : Connection) (s : Serving) (rest : Bytes) where
  -- Some reply was sent to the client behind `conn`, and the state is `s'` then.
  abbrev pub IsAnswered : Serving → Type 0
  IsAnswered s' =
      (reply : ReplyEntry) × (c : Connection) × Arrives world.messages reply conn c rest
      × (s'.poller ≡ update key (client c) s.poller)
      × Answers name (is_in name world.file_list) (Map.get name s.store) s.filenames_of_sent_files
          reply s'.filenames_of_sent_files

  told :
      (exists : Bool) (status : FileStatus) (s' : Serving)
      → Answers name
          (is_in name world.file_list)
          (Map.get name s.store)
          s.filenames_of_sent_files
          (record { exists = exists; status = some status })
          s.filenames_of_sent_files
      → (send_file_reply world.messages exists (some status) conn >>= λ c. ok (with_client key c s))
        ≡ ok s'
      → IsAnswered s'
  unfolding status_of
  told exists status s' answer e =
      let (c, e1, e2) = >>=-eq-ok (send_file_reply world.messages exists (some status) conn) _ e in
      subst IsAnswered (ok-injective e2) (
        record { exists = exists; status = some status },
        c,
        reply_frame world.messages exists (some status) status conn c rest refl law e1,
        refl,
        answer,
      )

  missing-IsAnswered :
      (s' : Serving)
      → is_in name world.file_list ≡ true
      → Map.get name s.store ≡ none
      → serve_missing world sys key name conn s ≡ ok s'
      → IsAnswered s'
  unfolding serve_missing
  missing-IsAnswered s' listed gone e = elim (Bool-cases (is_in name s.filenames_of_sent_files)) [
    | inl t ↦ cc (rw (serve_missing, listed, t) at e)
    | inr f ↦ told true not_ready s' (waits listed gone f) (rw (serve_missing, listed, f) at e)
  ]

  chunks-IsAnswered :
      (chunks : Chunks) (s' : Serving)
      → is_in name world.file_list ≡ true
      → Map.get name s.store ≡ some chunks
      → serve_chunks world sys key name conn chunks (record s { store = Map.without name s.store })
        ≡ ok s'
      → IsAnswered s'
  unfolding serve_chunks status_of
  chunks-IsAnswered chunks s' listed found e =
      let (c1, e1, r1) = >>=-eq-ok (send_file_reply world.messages true (some ready) conn) _ e in
      let ((fd, pipe, c2), e2, r2) = >>=-eq-ok (recv_pipe world.open_pipe c1) _ r1 in
      let ((res, pipe', semaphore), e3, r3) =
        >>=-eq-ok (send_over_chunks sys name chunks pipe s.semaphore) _ r2 in
      let (size, read) =
        reply_frame world.messages true (some ready) ready conn c1 rest refl law e1 in
      let same = recv_pipe-outgoing world.open_pipe c1 c2 fd pipe e2 in
      let reply : ReplyEntry = record { exists = true; status = some ready } in
      let told2 : Arrives world.messages reply conn c2 rest = (size, rw (← same) read) in
      subst IsAnswered (ok-injective r3) (elim (Bool-cases res) [
        | inl t ↦ rw t (reply, c2, told2, refl, sends chunks listed found)
        | inr f ↦ rw f (reply, c2, told2, refl, sends chunks listed found)
      ])

  -- Let the protobuf library decode the replies that it encodes. A request for a file that is served
  -- without an error has sent the client one reply, behind all that it was sent before: DoesNotExist for a
  -- file that is not in the list of the files, NotReady for one that is listed, of which nothing is there
  -- and which was not sent, and Ready for one that is listed and there, which is a file that was sent from
  -- then on.
  pub serve_file-IsAnswered :
      (s' : Serving) → serve_file world sys key name conn s ≡ ok s' → IsAnswered s'
  unfolding serve_file serve_found
  serve_file-IsAnswered s' e = elim (Bool-cases (is_in name world.file_list)) [
    | inr f ↦ told false does_not_exist s' (unknown f) (rw (serve_file, f) at e)
    | inl t ↦ elim (Option-cases (Map.get name s.store)) [
      | inl gone ↦ missing-IsAnswered s' t gone (rw (serve_file, serve_found, t, gone) at e)
      | inr (chunks, found) ↦
          chunks-IsAnswered chunks s' t found (rw (serve_file, serve_found, t, found) at e)
    ]
  ]
