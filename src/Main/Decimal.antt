-- ===== src/Main/Decimal.antt =====
-- Decimal numerals: what is printed is parsed back.
use cedana_image_streamer.Prelude.{
  ℕ, zero, suc, ◌+◌, ◌-◌, ◌*◌, ◌/◌, ◌%◌, ◌≤◌, ◌≡◌, refl, ltb, if◌then◌else◌, Bool-cases, inl, inr,
  true, Bytes, some, [], ◌∷◌, ◌++◌, All, arith, ◌∙◌, All-append,
}
use cedana_image_streamer.Main.{is_digit, parse_digits, parse_unsigned}

-- The decimal digits of a number, the highest first; the fuel is the number itself.
unfoldable pub print_digits : ℕ → ℕ → Bytes
print_digits zero n = (b'0' + n % 10) ∷ []
print_digits (suc fuel) n =
    let front = print_digits fuel (n / 10) in
    if ltb n 10 then (b'0' + n) ∷ [] else front ++ (b'0' + n % 10) ∷ []

unfoldable pub print_ℕ : ℕ → Bytes
unfolding print_digits
print_ℕ n = print_digits n n

parse_digits-append :
    (acc : ℕ) (xs ys : Bytes) (n : ℕ)
    → parse_digits acc xs ≡ some n
    → parse_digits acc (xs ++ ys) ≡ parse_digits n ys
unfolding parse_digits
parse_digits-append acc [] ys n e = ground arith
parse_digits-append acc (x ∷ xs) ys n e =
    ground (arith, parse_digits-append (acc * 10 + (x - b'0')) xs ys n)

parse-print_digits : (fuel n : ℕ) → n ≤ fuel → parse_digits 0 (print_digits fuel n) ≡ some n
unfolding parse_digits print_digits
parse-print_digits zero n h = ground arith
parse-print_digits (suc fuel) n h = elim (Bool-cases (ltb n 10)) [
  | inl t ↦ ground arith
  | inr f ↦ rw f (
      parse_digits-append 0 (print_digits fuel (n / 10)) ((b'0' + n % 10) ∷ []) (n / 10)
        (parse-print_digits fuel (n / 10) (ground arith))
      ∙ ground arith)
]

-- The printed number starts with a digit, and has no other bytes.
pub print_digits-digits : (fuel n : ℕ) → All (λ c. is_digit c ≡ true) (print_digits fuel n)
unfolding print_digits
print_digits-digits zero n = (ground arith, tt)
print_digits-digits (suc fuel) n = elim (Bool-cases (ltb n 10)) [
  | inl t ↦ rw t (ground arith, tt)
  | inr f ↦ rw f (
      All-append (λ c. is_digit c ≡ true) (print_digits fuel (n / 10)) ((b'0' + n % 10) ∷ [])
        (print_digits-digits fuel (n / 10)) (ground arith, tt))
]

print_digits-starts : (fuel n : ℕ) → (c : ℕ) × (cs : Bytes) × (print_digits fuel n ≡ c ∷ cs)
unfolding print_digits
print_digits-starts zero n = (b'0' + n % 10, [], refl)
print_digits-starts (suc fuel) n = elim (Bool-cases (ltb n 10)) [
  | inl t ↦ (b'0' + n, [], rw t refl)
  | inr f ↦
      let (c, cs, e) = print_digits-starts fuel (n / 10) in
      (c, cs ++ (b'0' + n % 10) ∷ [], rw (f, e) refl)
]

-- A printed number: a digit, and what makes `parse_unsigned` answer the number.
pub print_ℕ-cases :
    (n : ℕ)
    → (c : ℕ) × (cs : Bytes) × (print_ℕ n ≡ c ∷ cs)
      × (is_digit c ≡ true)
      × (parse_unsigned (c ∷ cs) ≡ some n)
unfolding print_ℕ parse_unsigned
print_ℕ-cases n =
    let (c, cs, e) = print_digits-starts n n in
    let digits : All (λ c. is_digit c ≡ true) (c ∷ cs) = rw e at (print_digits-digits n n) in
    let parsed : parse_digits 0 (c ∷ cs) ≡ some n =
      rw e at (parse-print_digits n n (omega arith)) in
    (c, cs, e, digits.0, parsed)

pub print_ℕ-digits : (n : ℕ) → All (λ c. is_digit c ≡ true) (print_ℕ n)
unfolding print_ℕ
print_ℕ-digits n = print_digits-digits n n
