-- ===== src/Connection.antt =====
-- src/connection.rs and proto/criu/img-streamer.proto: the messages between CRIU and the program over
-- the image socket.
--
-- A connection is what the peer has yet to send: bytes, and the descriptors that it passes along, one
-- or none with each message; what was sent to the peer; and whether the peer is there until so many bytes
-- are sent (`stays`): else the write to the socket fails.
pub mod Replies
use cedana_image_streamer.Prelude.{
  Bool, true, false, Bytes, codes, Option, none, some, List, [], ◌∷◌, ◌++◌, Result, ok, err, ◌>>=◌,
  ◌>>◌, ensure, length, ℕ, write_failed, no_fd, not_a_pipe,
}
use cedana_image_streamer.Image.{Codec}
use cedana_image_streamer.Util.{pb_read_next, pb_write}

-- img_streamer_request_entry
pub record RequestEntry : Type 0 where
  pub filename : Bytes

-- file_status
pub data FileStatus : Type 0 where
  does_not_exist not_ready ready : FileStatus

-- img_streamer_reply_entry
pub record ReplyEntry : Type 0 where
  pub exists : Bool
  pub status : Option FileStatus

-- img_streamer_list_reply_entry
pub record ListReplyEntry : Type 0 where
  pub filenames : List Bytes

-- prost, on these messages.
pub record Messages : Type 0 where
  pub request : Codec RequestEntry
  pub reply : Codec ReplyEntry
  pub list_reply : Codec ListReplyEntry

pub record Connection : Type 0 where
  pub incoming : Bytes
  pub passed_fds : List (Option ℕ)
  pub outgoing : Bytes
  pub stays : ℕ → Bool

-- What is written to the socket is at the end of what was sent.
abbrev pub extend : Bytes → Bytes → Result Bytes
extend out bytes = ok (out ++ bytes)

abbrev pub filename_of : Option (RequestEntry × ℕ) → Option Bytes
filename_of none = none
filename_of (some (req, size)) = some req.filename

-- util.rs: a message of one byte that comes with a descriptor.
unfoldable pub recv_fd_parts : Bytes → List (Option ℕ) → Connection → Result (ℕ × Connection)
recv_fd_parts (byte ∷ rest) (some fd ∷ fds) conn =
    ok (fd, record conn { incoming = rest; passed_fds = fds })
recv_fd_parts (byte ∷ rest) (none ∷ fds) conn = err no_fd
recv_fd_parts (byte ∷ rest) [] conn = err no_fd
recv_fd_parts [] fds conn = err no_fd

unfoldable pub recv_fd : Connection → Result (ℕ × Connection)
unfolding recv_fd_parts
recv_fd conn = recv_fd_parts conn.incoming conn.passed_fds conn

-- `recv_pipe`: `open_pipe` says what is behind a descriptor, if it is a pipe.
unfoldable pub recv_pipe :
    {Pipe : Type 0} → (ℕ → Option Pipe) → Connection → Result (ℕ × Pipe × Connection)
unfolding recv_fd
recv_pipe open_pipe conn = do
  (fd, conn') ← recv_fd conn
  elim (open_pipe fd) [ none ↦ err not_a_pipe | some pipe ↦ ok (fd, pipe, conn') ]

-- The status that goes out with a reply.
unfoldable pub status_of : Bool → Option FileStatus → FileStatus
status_of exists (some status) = status
status_of false none = does_not_exist
status_of true none = ready

module _ (messages : Messages) where
  -- The next request, `none` at the end of the stream.
  unfoldable pub read_next_file_request : Connection → Result (Option Bytes × Connection)
  read_next_file_request conn = do
    (found, rest) ← pb_read_next messages.request conn.incoming
    ok (filename_of found, record conn { incoming = rest })

  unfoldable pub send_file_reply : Bool → Option FileStatus → Connection → Result Connection
  unfolding status_of
  send_file_reply exists file_status conn = do
    (out, size) ←
        pb_write messages.reply extend conn.outgoing
          (record { exists = exists; status = some (status_of exists file_status) })
    ensure (conn.stays (length out)) write_failed
    ok (record conn { outgoing = out })

  unfoldable pub send_file_list_reply : List Bytes → Connection → Result Connection
  send_file_list_reply files conn = do
    (out, size) ← pb_write messages.list_reply extend conn.outgoing (record { filenames = files })
    ensure (conn.stays (length out)) write_failed
    ok (record conn { outgoing = out })
