-- ===== src/Tests/CommandLine.antt =====
-- Instances of the theorems on the command line.
use cedana_image_streamer.Prelude.{
  ◌≡◌, ◌≤◌, refl, Bytes, codes, Option, none, some, List, [], ◌∷◌, ◌++◌, length, ℤ, pos, ok, err,
  bad_format, arith,
}
use cedana_image_streamer.Main.{
  capture, Opts, Action, captures, do_main, colon, parse_ext_fd, parse_port_remap,
}
use cedana_image_streamer.Main.Decimal.{print_ℕ}
use cedana_image_streamer.Main.Formats.{
  print_ℤ, parse_ext_fd-print, parse_port_remap-print, parse-bad_format,
}
use cedana_image_streamer.Main.Checks.{IsAllowed, IsCall, IsOpened, IsNamed, do_main-eq-ok}

parse_ext_fd-print_example :
    parse_ext_fd (codes "fs.tar" ++ colon ∷ print_ℤ (pos 17)) ≡ ok (codes "fs.tar", pos 17)
parse_ext_fd-print_example =
    parse_ext_fd-print (codes "fs.tar") (pos 17) (refl, (refl, (refl, (refl, (refl, (refl, tt))))))
      (omega arith)

parse_port_remap-print_example :
    parse_port_remap (print_ℕ 80 ++ colon ∷ print_ℕ 8080) ≡ ok (80, 8080)
parse_port_remap-print_example = parse_port_remap-print 80 8080 (omega arith) (omega arith)

parse-bad_format_example :
    (parse_ext_fd (codes "a:b:c") ≡ err bad_format)
    × (parse_port_remap (codes "a:b:c") ≡ err bad_format)
parse-bad_format_example = parse-bad_format (codes "a:b:c") (λ e. omega (arith, e))

-- Every descriptor is a pipe, and stands for itself.
abbrev open_pipe : ℤ → Option ℤ
open_pipe fd = some fd

abbrev opts : Opts
opts = record {
  shard_fds = pos 10 ∷ pos 11 ∷ [];
  ext_file_fds = (codes "fs.tar", pos 12) ∷ [];
  tcp_listen_remap = [];
  memory_limit = none;
  operation = capture;
}

abbrev go_capture : Action ℤ
go_capture = captures (pos 10 ∷ pos 11 ∷ []) ((codes "fs.tar", pos 12) ∷ [])

accepted : do_main open_pipe opts ≡ ok go_capture
unfolding do_main
accepted = refl

do_main-eq-ok_example :
    (shard_pipes : List ℤ) × (ext_file_pipes : List (Bytes × ℤ)) × IsOpened open_pipe
      (pos 10 ∷ pos 11 ∷ [])
      shard_pipes
    × IsNamed open_pipe ((codes "fs.tar", pos 12) ∷ []) ext_file_pipes
    × IsCall opts shard_pipes ext_file_pipes go_capture
    × (2 ≤ length shard_pipes)
    × IsAllowed opts
do_main-eq-ok_example = do_main-eq-ok open_pipe opts go_capture accepted
