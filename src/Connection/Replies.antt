-- ===== src/Connection/Replies.antt =====
-- src/connection.rs: what each side reads of what the other has sent.
use cedana_image_streamer.Prelude.{
  ℕ, ◌≡◌, refl, ◌++◌, Bool, Bytes, Option, some, List, ◌∷◌, length, drop, ok, >>=-eq-ok,
  ok-injective, ensure, write_failed, ap, subst, true, false, none, ◌*◌, ◌<◌,
}
use cedana_image_streamer.Image.{Decodes}
use cedana_image_streamer.Util.{kb, frame, pb_read_next, pb_write}
use cedana_image_streamer.Util.RoundTrip.{pb_read_next-pb_write, pb_read_next-frame}
use cedana_image_streamer.Connection.{
  FileStatus, ready, does_not_exist, ReplyEntry, Messages, Connection, extend, recv_fd_parts,
  recv_fd, recv_pipe, status_of, read_next_file_request, send_file_reply,
}

-- The status that a reply carries, for the arguments of `send_file_reply()`.
pub data HasStatus : Bool → Option FileStatus → FileStatus → Type 0 where
  given : {exists : Bool} {status : FileStatus} → HasStatus exists (some status) status
  present : HasStatus true none ready
  absent : HasStatus false none does_not_exist

module _ (messages : Messages) where
  -- What is in `conn'` behind what was in `conn` is read as one message, and `rest` is left.
  abbrev pub Arrives : ReplyEntry → Connection → Connection → Bytes → Type 0
  Arrives reply conn conn' rest =
      (size : ℕ) × (pb_read_next messages.reply (drop (length conn.outgoing) conn'.outgoing ++ rest)
        ≡ ok (some (reply, size), rest))

  -- A reply that was sent with a status is read with it.
  pub reply_frame :
      (exists : Bool) (file_status : Option FileStatus) (status : FileStatus)
      (conn conn' : Connection) (rest : Bytes)
      → status_of exists file_status ≡ status
      → Decodes messages.reply
      → send_file_reply messages exists file_status conn ≡ ok conn'
      → Arrives (record { exists = exists; status = some status }) conn conn' rest
  unfolding send_file_reply
  reply_frame exists file_status status conn conn' rest s law e =
      let reply : ReplyEntry = record {
        exists = exists;
        status = some (status_of exists file_status);
      } in
      let ((out, size), w, e0) =
        >>=-eq-ok (pb_write messages.reply extend conn.outgoing reply) _ e in
      let (u, there, e1) = >>=-eq-ok (ensure (conn.stays (length out)) write_failed) _ e0 in
      let same : out ≡ conn'.outgoing = ap (λ (c : Connection). c.outgoing) (ok-injective e1) in
      subst
        (λ (z : FileStatus). Arrives (record { exists = exists; status = some z }) conn conn' rest)
        s
        (
          size,
          rw (← same)
              (pb_read_next-pb_write messages.reply conn.outgoing reply rest out size law w),
        )

  -- A reply that was sent is read by the client as one message, with the same `exists` and with the status of
  -- `HasStatus`: the given one, else Ready for a file that exists and DoesNotExist for one that does not.
  pub read-send_file_reply :
      (exists : Bool) (file_status : Option FileStatus) (conn conn' : Connection) (rest : Bytes)
      → Decodes messages.reply
      → send_file_reply messages exists file_status conn ≡ ok conn'
      → (status : FileStatus) × HasStatus exists file_status status
        × Arrives (record { exists = exists; status = some status }) conn conn' rest
  unfolding status_of
  read-send_file_reply exists (some status) conn conn' rest law e =
      (status, given, reply_frame exists (some status) status conn conn' rest refl law e)
  read-send_file_reply true none conn conn' rest law e =
      (ready, present, reply_frame true none ready conn conn' rest refl law e)
  read-send_file_reply false none conn conn' rest law e =
      (does_not_exist, absent, reply_frame false none does_not_exist conn conn' rest refl law e)

  -- A client's request for a file, followed by the byte that brings the descriptor of a pipe, is read as the
  -- file's name and then as that pipe, and leaves what comes behind.
  pub read_next_file_request-recv_pipe :
      {Pipe : Type 0} (open_pipe : ℕ → Option Pipe) (filename rest : Bytes) (byte fd : ℕ)
      (fds : List (Option ℕ)) (out : Bytes) (stays : ℕ → Bool) (pipe : Pipe)
      → Decodes messages.request
      → length (messages.request.encode (record { filename = filename })) < 10 * kb
      → open_pipe fd ≡ some pipe
      → (read_next_file_request messages (record {
        incoming = frame messages.request (record { filename = filename }) ++ byte ∷ rest;
        passed_fds = some fd ∷ fds;
        outgoing = out;
        stays = stays;
      })
          ≡ ok (
            some filename,
            record {
              incoming = byte ∷ rest;
              passed_fds = some fd ∷ fds;
              outgoing = out;
              stays = stays;
            },
          ))
        × (recv_pipe open_pipe (record {
          incoming = byte ∷ rest;
          passed_fds = some fd ∷ fds;
          outgoing = out;
          stays = stays;
        })
            ≡ ok (
              fd,
              pipe,
              record { incoming = rest; passed_fds = fds; outgoing = out; stays = stays },
            ))
  unfolding read_next_file_request recv_pipe recv_fd recv_fd_parts
  read_next_file_request-recv_pipe open_pipe filename rest byte fd fds out stays pipe law fits
        opened =
      (
        rw
            (pb_read_next-frame messages.request (record { filename = filename }) (byte ∷ rest) law
              fits)
            refl,
        rw opened refl,
      )
