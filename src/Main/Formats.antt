-- ===== src/Main/Formats.antt =====
-- src/main.rs: the two formats of arguments, `filename:fd` and `old_port:new_port`.
use cedana_image_streamer.Prelude.{
  ℕ, suc, ◌≤◌, ◌<◌, ◌≡◌, ◌≢◌, refl, ◌==◌, if◌then◌else◌, Bool-cases, inl, inr, true, false, Bytes,
  Option, none, some, List, [], ◌∷◌, ◌++◌, length, All, All-map, ℤ, pos, negsuc, ok, err, >>=-eq-ok,
  ok-injective, bad_format, arith, ◌∙◌, ap, subst,
}
use cedana_image_streamer.Stream.{occurs}
use cedana_image_streamer.Main.{
  cons_head, split, colon, is_digit, parse_unsigned, at_most, parse_u16, parse_i32, integer_or_fail,
  ext_fd_parts, parse_ext_fd, port_remap_parts, parse_port_remap,
}
use cedana_image_streamer.Main.Decimal.{print_ℕ, print_ℕ-cases, print_ℕ-digits}

-- A text without a separator.
abbrev pub Lacks : ℕ → Bytes → Type 0
Lacks separator s = All (λ c. (c == separator) ≡ false) s

split_none : (separator : ℕ) (s : Bytes) → Lacks separator s → split separator s ≡ s ∷ []
unfolding split
split_none separator [] h = refl
split_none separator (c ∷ cs) h = rw (h.0, split_none separator cs h.1) (unfold cons_head in refl)

split_one :
    (separator : ℕ) (s t : Bytes)
    → Lacks separator s
    → split separator (s ++ separator ∷ t) ≡ s ∷ split separator t
unfolding split
split_one separator [] t h = ground arith
split_one separator (c ∷ cs) t h = rw (h.0, split_one separator cs t h.1) (unfold cons_head in refl)

split_pair :
    (separator : ℕ) (s t : Bytes)
    → Lacks separator s
    → Lacks separator t
    → split separator (s ++ separator ∷ t) ≡ s ∷ t ∷ []
split_pair separator s t h k = split_one separator s t h ∙ rw (split_none separator t k)

length-cons_head :
    (c : ℕ) (parts : List Bytes) → 0 < length parts → length (cons_head c parts) ≡ length parts
unfolding cons_head
length-cons_head c [] h = absurd (omega arith)
length-cons_head c (part ∷ parts) h = refl

length-split : (separator : ℕ) (s : Bytes) → length (split separator s) ≡ suc (occurs separator s)
unfolding split
length-split separator [] = refl
length-split separator (c ∷ cs) = elim (Bool-cases (c == separator)) [
  | inl t ↦ rw t (omega (arith, length-split separator cs))
  | inr f ↦ rw f (
      length-cons_head c (split separator cs) (omega (arith, length-split separator cs))
      ∙ omega (arith, length-split separator cs))
]

digit-ne-colon : (s : Bytes) → All (λ c. is_digit c ≡ true) s → Lacks colon s
digit-ne-colon s h =
    All-map (λ c. is_digit c ≡ true) (λ c. (c == colon) ≡ false) s (λ c k. ground arith) h

parse_u16-print_ℕ : (n : ℕ) → n < 65536 → parse_u16 (print_ℕ n) ≡ some n
unfolding parse_u16
parse_u16-print_ℕ n h =
    let (c, cs, e, digit, parsed) = print_ℕ-cases n in rw e (ground (arith, parsed))

-- An integer as it is written on the command line.
unfoldable pub print_ℤ : ℤ → Bytes
print_ℤ (pos n) = print_ℕ n
print_ℤ (negsuc n) = b'-' ∷ print_ℕ (suc n)

-- The numbers of an i32.
abbrev pub IsI32 : ℤ → Type 0
IsI32 (pos n) = n < 2147483648
IsI32 (negsuc n) = n < 2147483648

parse_i32-print_ℤ : (z : ℤ) → IsI32 z → parse_i32 (print_ℤ z) ≡ some z
unfolding parse_i32 print_ℤ
parse_i32-print_ℤ (pos n) h =
    let (c, cs, e, digit, parsed) = print_ℕ-cases n in rw e (ground (arith, parsed))
parse_i32-print_ℤ (negsuc n) h =
    let (c, cs, e, digit, parsed) = print_ℕ-cases (suc n) in rw e (ground (arith, parsed))

print_ℤ-Lacks : (z : ℤ) → Lacks colon (print_ℤ z)
unfolding print_ℤ
print_ℤ-Lacks (pos n) = digit-ne-colon (print_ℕ n) (print_ℕ-digits n)
print_ℤ-Lacks (negsuc n) = (refl, digit-ne-colon (print_ℕ (suc n)) (print_ℕ-digits (suc n)))

-- A file name without a colon and any i32, written as `filename:fd`, are parsed back.
pub parse_ext_fd-print :
    (filename : Bytes) (fd : ℤ)
    → Lacks colon filename
    → IsI32 fd
    → parse_ext_fd (filename ++ colon ∷ print_ℤ fd) ≡ ok (filename, fd)
unfolding parse_ext_fd ext_fd_parts integer_or_fail
parse_ext_fd-print filename fd h k =
    rw (split_pair colon filename (print_ℤ fd) h (print_ℤ-Lacks fd), parse_i32-print_ℤ fd k) refl

-- Two ports, written as `old_port:new_port`, are parsed back.
pub parse_port_remap-print :
    (old_port new_port : ℕ)
    → old_port < 65536
    → new_port < 65536
    → parse_port_remap (print_ℕ old_port ++ colon ∷ print_ℕ new_port) ≡ ok (old_port, new_port)
unfolding parse_port_remap port_remap_parts integer_or_fail
parse_port_remap-print old_port new_port h k =
    rw
      (
        split_pair colon (print_ℕ old_port) (print_ℕ new_port)
            (digit-ne-colon (print_ℕ old_port) (print_ℕ-digits old_port))
            (digit-ne-colon (print_ℕ new_port) (print_ℕ-digits new_port)),
        parse_u16-print_ℕ old_port h,
        parse_u16-print_ℕ new_port k,
      )
      refl

parts_bad :
    (parts : List Bytes)
    → length parts ≢ 2
    → (ext_fd_parts parts ≡ err bad_format) × (port_remap_parts parts ≡ err bad_format)
unfolding ext_fd_parts port_remap_parts
parts_bad [] h = (refl, refl)
parts_bad (x ∷ []) h = (refl, refl)
parts_bad (x ∷ y ∷ []) h = absurd (h refl)
parts_bad (x ∷ y ∷ z ∷ rest) h = (refl, refl)

-- An argument with no colon, or with more than one, is refused for its format, by both parsers.
pub parse-bad_format :
    (s : Bytes)
    → occurs colon s ≢ 1
    → (parse_ext_fd s ≡ err bad_format) × (parse_port_remap s ≡ err bad_format)
unfolding parse_ext_fd parse_port_remap
parse-bad_format s h = parts_bad (split colon s) (λ e. h (omega (arith, length-split colon s, e)))

at_most_lem : (limit : ℕ) (o : Option ℕ) (n : ℕ) → at_most limit o ≡ some n → n ≤ limit
at_most_lem limit none n e = cc
at_most_lem limit (some m) n e = ground arith

parse_u16_bounds : (s : Bytes) (n : ℕ) → parse_u16 s ≡ some n → n < 65536
unfolding parse_u16
parse_u16_bounds [] n e = cc
parse_u16_bounds (c ∷ cs) n e = omega (
  arith,
  at_most_lem 65535 (if c == b'+' then parse_unsigned cs else parse_unsigned (c ∷ cs)) n e,
)

integer_or_fail-eq-ok : (o : Option ℕ) (n : ℕ) → integer_or_fail o ≡ ok n → o ≡ some n
unfolding integer_or_fail
integer_or_fail-eq-ok none n e = cc
integer_or_fail-eq-ok (some m) n e = ap some (ok-injective e)

port_remap_parts_bounds :
    (parts : List Bytes) (z : ℕ × ℕ) → port_remap_parts parts ≡ ok z → (z.0 < 65536) × (z.1 < 65536)
unfolding port_remap_parts
port_remap_parts_bounds [] z e = cc
port_remap_parts_bounds (x ∷ []) z e = cc
port_remap_parts_bounds (x ∷ y ∷ w ∷ rest) z e = cc
port_remap_parts_bounds (x ∷ y ∷ []) z e =
    let (old_port, p, e1) = >>=-eq-ok (integer_or_fail (parse_u16 x)) _ e in
    let (new_port, q, e2) = >>=-eq-ok (integer_or_fail (parse_u16 y)) _ e1 in
    subst (λ (w : ℕ × ℕ). (w.0 < 65536) × (w.1 < 65536)) (ok-injective e2)
      (
        parse_u16_bounds x old_port (integer_or_fail-eq-ok (parse_u16 x) old_port p),
        parse_u16_bounds y new_port (integer_or_fail-eq-ok (parse_u16 y) new_port q),
      )

-- The ports that are parsed from any argument are u16 numbers.
pub parse_port_remap_bounds :
    (s : Bytes) (old_port new_port : ℕ)
    → parse_port_remap s ≡ ok (old_port, new_port)
    → (old_port < 65536) × (new_port < 65536)
unfolding parse_port_remap
parse_port_remap_bounds s old_port new_port e =
    port_remap_parts_bounds (split colon s) (old_port, new_port) e
