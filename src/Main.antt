-- ===== src/Main.antt =====
-- src/main.rs: the command line.
--
-- Texts are the lists of their characters. Opening a pipe from a descriptor (UnixPipe::new) is a
-- parameter that says which descriptors are pipes; the action that the program goes on to is a value.
pub mod Decimal
pub mod Formats
pub mod Checks
use cedana_image_streamer.Prelude.{
  ℕ, suc, ◌+◌, ◌-◌, ◌*◌, ◌/◌, ◌%◌, ◌^◌, ◌==◌, ltb, leb, if◌then◌else◌, Bool, true, false, ◌&&◌,
  ◌||◌, Bytes, codes, Option, none, some, List, [], ◌∷◌, ◌++◌, map, length, ℤ, pos, sub_ℕ, Result,
  ok, err, ◌>>=◌, ◌>>◌, ensure, bad_format, not_an_integer, not_a_pipe, too_few_shards,
  only_when_serving,
}

-- `s.split(separator)`
unfoldable pub cons_head : ℕ → List Bytes → List Bytes
cons_head c [] = (c ∷ []) ∷ []
cons_head c (part ∷ parts) = (c ∷ part) ∷ parts

unfoldable pub split : ℕ → Bytes → List Bytes
unfolding cons_head
split separator [] = [] ∷ []
split separator (c ∷ cs) =
    let rest = split separator cs in if c == separator then [] ∷ rest else cons_head c rest

abbrev pub colon : ℕ
colon = b':'

abbrev pub is_digit : ℕ → Bool
is_digit c = leb b'0' c && leb c b'9'

-- The digits of `str::parse`, behind the value of those before them.
unfoldable pub parse_digits : ℕ → Bytes → Option ℕ
parse_digits acc [] = some acc
parse_digits acc (c ∷ cs) =
    let rest = parse_digits (acc * 10 + (c - b'0')) cs in if is_digit c then rest else none

-- There is a digit at least.
unfoldable pub parse_unsigned : Bytes → Option ℕ
unfolding parse_digits
parse_unsigned [] = none
parse_unsigned (c ∷ cs) = parse_digits 0 (c ∷ cs)

abbrev pub at_most : ℕ → Option ℕ → Option ℕ
at_most limit none = none
at_most limit (some n) = if leb n limit then some n else none

-- `u16::from_str`: a plus sign may stand in front.
unfoldable pub parse_u16 : Bytes → Option ℕ
unfolding parse_unsigned
parse_u16 [] = none
parse_u16 (c ∷ cs) =
    at_most 65535 (if c == b'+' then parse_unsigned cs else parse_unsigned (c ∷ cs))

abbrev pub positive : Option ℕ → Option ℤ
positive none = none
positive (some n) = some (pos n)

abbrev pub negative : Option ℕ → Option ℤ
negative none = none
negative (some n) = some (sub_ℕ 0 n)

-- `i32::from_str`
unfoldable pub parse_i32 : Bytes → Option ℤ
unfolding parse_unsigned
parse_i32 [] = none
parse_i32 (c ∷ cs) =
    if c == b'-'
    then negative (at_most 2147483648 (parse_unsigned cs))
    else (if c == b'+'
        then positive (at_most 2147483647 (parse_unsigned cs))
        else positive (at_most 2147483647 (parse_unsigned (c ∷ cs))))

unfoldable pub integer_or_fail {ℓ} : {A : Type ℓ} → Option A → Result A
integer_or_fail none = err not_an_integer
integer_or_fail (some n) = ok n

unfoldable pub ext_fd_parts : List Bytes → Result (Bytes × ℤ)
unfolding integer_or_fail parse_i32
ext_fd_parts (filename ∷ fd ∷ []) = do fd' ← integer_or_fail (parse_i32 fd); ok (filename, fd')
ext_fd_parts [] = err bad_format
ext_fd_parts (x ∷ []) = err bad_format
ext_fd_parts (x ∷ y ∷ z ∷ rest) = err bad_format

unfoldable pub parse_ext_fd : Bytes → Result (Bytes × ℤ)
unfolding split ext_fd_parts
parse_ext_fd s = ext_fd_parts (split colon s)

unfoldable pub port_remap_parts : List Bytes → Result (ℕ × ℕ)
unfolding integer_or_fail parse_u16
port_remap_parts (old_port ∷ new_port ∷ []) = do
  old_port' ← integer_or_fail (parse_u16 old_port)
  new_port' ← integer_or_fail (parse_u16 new_port)
  ok (old_port', new_port')
port_remap_parts [] = err bad_format
port_remap_parts (x ∷ []) = err bad_format
port_remap_parts (x ∷ y ∷ z ∷ rest) = err bad_format

unfoldable pub parse_port_remap : Bytes → Result (ℕ × ℕ)
unfolding split port_remap_parts
parse_port_remap s = port_remap_parts (split colon s)

pub data Operation : Type 0 where
  capture extract serve : Operation

abbrev pub is_serve : Operation → Bool
is_serve serve = true
is_serve capture = false
is_serve extract = false

pub record Opts : Type 0 where
  pub shard_fds : List ℤ
  pub ext_file_fds : List (Bytes × ℤ)
  pub tcp_listen_remap : List (ℕ × ℕ)
  pub memory_limit : Option ℕ
  pub operation : Operation

abbrev pub no_remaps : List (ℕ × ℕ) → Bool
no_remaps [] = true
no_remaps (x ∷ xs) = false

abbrev pub no_limit : Option ℕ → Bool
no_limit none = true
no_limit (some limit) = false

-- The call at the end of `do_main`, with its arguments.
pub data Action (Pipe : Type 0) : Type 0 where
  captures extracts : List Pipe → List (Bytes × Pipe) → Action Pipe
  serves : List Pipe → List (Bytes × Pipe) → List (ℕ × ℕ) → Option ℕ → Action Pipe

module _ {Pipe : Type 0} where
  unfoldable pub action : Operation → List Pipe → List (Bytes × Pipe) → Opts → Action Pipe
  action capture shard_pipes ext_file_pipes opts = captures shard_pipes ext_file_pipes
  action extract shard_pipes ext_file_pipes opts = extracts shard_pipes ext_file_pipes
  action serve shard_pipes ext_file_pipes opts =
      serves shard_pipes ext_file_pipes opts.tcp_listen_remap opts.memory_limit

  module _ (open_pipe : ℤ → Option Pipe) where
    -- `UnixPipe::new(fd)?`
    unfoldable pub new_pipe : ℤ → Result Pipe
    new_pipe fd = elim (open_pipe fd) [ none ↦ err not_a_pipe | some pipe ↦ ok pipe ]

    unfoldable pub open_shards : List ℤ → Result (List Pipe)
    unfolding new_pipe
    open_shards [] = ok []
    open_shards (fd ∷ fds) = do pipe ← new_pipe fd; pipes ← open_shards fds; ok (pipe ∷ pipes)

    unfoldable pub open_ext_files : List (Bytes × ℤ) → Result (List (Bytes × Pipe))
    unfolding new_pipe
    open_ext_files [] = ok []
    open_ext_files ((filename, fd) ∷ files) = do
      pipe ← new_pipe fd
      rest ← open_ext_files files
      ok ((filename, pipe) ∷ rest)

    unfoldable pub do_main : Opts → Result (Action Pipe)
    unfolding open_shards open_ext_files action
    do_main opts = do
      ensure (leb 2 (length opts.shard_fds)) too_few_shards
      shard_pipes ← open_shards opts.shard_fds
      ext_file_pipes ← open_ext_files opts.ext_file_fds
      ensure (is_serve opts.operation || no_remaps opts.tcp_listen_remap) only_when_serving
      ensure (is_serve opts.operation || no_limit opts.memory_limit) only_when_serving
      ok (action opts.operation shard_pipes ext_file_pipes opts)
