-- ===== src/Serve/Loop/Sent.antt =====
-- src/extract.rs, `serve_img()`: what every round keeps.
use cedana_image_streamer.Prelude.Map
use cedana_image_streamer.System.{System}
use cedana_image_streamer.Connection.{Connection}
use cedana_image_streamer.Serve.State.{Serving}
use cedana_image_streamer.Serve.Loop.Once.{IsSent}

-- The name of every open pipe is among the files that were sent.
abbrev pub IsKept : Serving → Type 0
IsKept s = IsSent s.filenames_of_sent_files s.open_pipes
