-- ===== src/Tests/Polling.antt =====
-- Instances of the theorems on the poller and the connections.
use cedana_image_streamer.Prelude.{
  ℕ, ◌≡◌, ◌≢◌, refl, true, none, some, List, [], ◌∷◌, pop, All, ok, panic, invalid_key, arith,
}
use cedana_image_streamer.Util.{pb_write}
use cedana_image_streamer.Poller.{Poller, Wait, ready, interrupted, poll, remove}
use cedana_image_streamer.Poller.Entries.{find, without}
use cedana_image_streamer.Poller.Valid.{IsValid, Polled, poll-Polled, poll-remove-IsValid}
use cedana_image_streamer.Poller.Stale.{remove-poll-panic}
use cedana_image_streamer.Connection.{Connection, FileStatus, not_ready, send_file_reply}
use cedana_image_streamer.Connection.Replies.{HasStatus, Arrives, read-send_file_reply}
use cedana_image_streamer.Tests.Messages.{messages, reply-Decodes}

-- Two objects, under the keys 0 and 1.
abbrev poller : Poller ℕ
poller = record {
  interest = (3, 0) ∷ (4, 1) ∷ [];
  slab = (0, (3, 30)) ∷ (1, (4, 40)) ∷ [];
  pending_events = [];
}

abbrev waits : List Wait
waits = interrupted ∷ ready (0 ∷ 1 ∷ []) ∷ []

registered : All (λ key. find key poller.slab ≢ none) (0 ∷ 1 ∷ [])
unfolding find
registered = ((λ e. cc), ((λ e. cc), tt))

poll-Polled_example : Polled poller (poll waits poller)
poll-Polled_example = poll-Polled poller waits tt (λ j. omega arith) (registered, λ j. ground arith)

abbrev polled : Poller ℕ
polled = record poller { pending_events = 0 ∷ [] }

abbrev without_one : Poller ℕ
without_one = record { interest = (3, 0) ∷ []; slab = (0, (3, 30)) ∷ []; pending_events = 0 ∷ [] }

polled_lem : poll waits poller ≡ ok (some (1, 40), polled, [])
unfolding poll pop find
polled_lem = refl

removed : remove 1 polled ≡ ok (40, without_one)
unfolding remove find without
removed = refl

poll-remove-IsValid_example : IsValid without_one
poll-remove-IsValid_example =
    poll-remove-IsValid poller polled without_one waits [] 1 40 40 tt (λ j. omega arith)
      (registered, λ j. ground arith) polled_lem removed

-- The object 0, whose event is pending, is removed while the object 1 is handled.
abbrev without_zero : Poller ℕ
without_zero = record { interest = (4, 1) ∷ []; slab = (1, (4, 40)) ∷ []; pending_events = 0 ∷ [] }

removed_zero : remove 0 polled ≡ ok (30, without_zero)
unfolding remove find without
removed_zero = refl

remove-poll-panic_example : poll [] without_zero ≡ panic invalid_key
remove-poll-panic_example = remove-poll-panic polled without_zero [] [] 0 30 refl removed_zero refl

abbrev conn : Connection
conn = record { incoming = []; passed_fds = []; outgoing = 9 ∷ []; stays = λ n. true }

abbrev replied : Connection
replied = record conn { outgoing = 9 ∷ 2 ∷ 0 ∷ 0 ∷ 0 ∷ 1 ∷ 1 ∷ [] }

replied_lem : send_file_reply messages true (some not_ready) conn ≡ ok replied
unfolding send_file_reply pb_write
replied_lem = refl

read-send_file_reply_example :
    (status : FileStatus) × HasStatus true (some not_ready) status
    × Arrives messages (record { exists = true; status = some status }) conn replied (7 ∷ [])
read-send_file_reply_example =
    read-send_file_reply messages true (some not_ready) conn replied (7 ∷ []) reply-Decodes
      replied_lem
