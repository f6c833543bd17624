-- ===== src/Util/Glob.antt =====
-- src/util.rs, `filter_files()`: what a pattern means.
use cedana_image_streamer.Prelude.{
  ℕ, ◌≡◌, ◌≢◌, refl, ◌∙◌, ◌==◌, ◌||◌, ◌&&◌, not, if◌then◌else◌, Bool, Bool-cases, inl, inr, true,
  false, Text, All, All-map, Option, some, List, [], ◌∷◌, ◌++◌, map, select, arith,
}
use cedana_image_streamer.Util.Filter.{is_special, push_char, push_chars, filter_files}

-- A part of a glob pattern, which is also a part of a regular expression.
pub data Token : Type 0 where
  any_run any_one : Token
  literal : ℕ → Token

-- The text may start with any characters that are `wild`, and then with what `rest` matches.
abbrev match_run : (ℕ → Bool) → (Text → Bool) → Text → Bool
match_run wild rest [] = rest []
match_run wild rest (x ∷ xs) =
    let later = match_run wild rest xs in rest (x ∷ xs) || (wild x && later)

-- Whether the tokens match a text, where a wildcard stands for the characters that are `wild`.
unfoldable pub match_tokens : (ℕ → Bool) → List Token → Text → Bool
match_tokens wild [] [] = true
match_tokens wild [] (x ∷ xs) = false
match_tokens wild (any_run ∷ ts) text = match_run wild (match_tokens wild ts) text
match_tokens wild (any_one ∷ ts) [] = false
match_tokens wild (any_one ∷ ts) (x ∷ xs) = wild x && match_tokens wild ts xs
match_tokens wild (literal c ∷ ts) [] = false
match_tokens wild (literal c ∷ ts) (x ∷ xs) = (x == c) && match_tokens wild ts xs

-- As a glob: a wildcard stands for any character.
abbrev pub matches : List Token → Text → Bool
matches = match_tokens (λ x. true)

-- As a regular expression: the dot stands for any character but a line feed.
abbrev pub matches_line : List Token → Text → Bool
matches_line = match_tokens (λ x. not (x == 10))

-- A text with no line feed in it.
abbrev pub IsLine : Text → Type 0
IsLine text = All (λ x. (x == 10) ≡ false) text

match_run-line :
    (f g : Text → Bool) (text : Text)
    → ((t : Text) → IsLine t → f t ≡ g t)
    → IsLine text
    → match_run (λ x. not (x == 10)) f text ≡ match_run (λ x. true) g text
match_run-line f g [] same h = same [] tt
match_run-line f g (x ∷ xs) same (other, h) =
    rw (same (x ∷ xs) (other, h), match_run-line f g xs same h, other) refl

-- On a text with no line feed both are the same.
matches_line-matches :
    (ts : List Token) (text : Text) → IsLine text → matches_line ts text ≡ matches ts text
unfolding match_tokens
matches_line-matches [] [] h = refl
matches_line-matches [] (x ∷ xs) h = refl
matches_line-matches (any_run ∷ ts) text h =
    match_run-line (matches_line ts) (matches ts) text (λ t. matches_line-matches ts t) h
matches_line-matches (any_one ∷ ts) [] h = refl
matches_line-matches (any_one ∷ ts) (x ∷ xs) (other, h) =
    rw (other, matches_line-matches ts xs h) refl
matches_line-matches (literal c ∷ ts) [] h = refl
matches_line-matches (literal c ∷ ts) (x ∷ xs) (other, h) = rw (matches_line-matches ts xs h) refl

-- The documented syntax of regular expressions, as far as it goes here: a quantifier is one of `*`, `+`,
-- `?` and `{`; a character that is none of the special ones, or that a backslash precedes, stands for itself.
abbrev pub is_quantifier : ℕ → Bool
is_quantifier c = c == 42 || c == 43 || c == 63 || c == 123

abbrev pub is_quantified : Text → Bool
is_quantified [] = false
is_quantified (c ∷ r) = is_quantifier c

abbrev pub is_metacharacter : ℕ → Bool
is_metacharacter c =
    is_quantifier c
    || c == 40
    || c == 41
    || c == 46
    || c == 91
    || c == 92
    || c == 93
    || c == 94
    || c == 36
    || c == 124
    || c == 125

-- The regular expression, up to its final `$`, means the tokens.
pub data Denotes : Text → List Token → Type 0 where
  ends : Denotes (36 ∷ []) []
  run :
      (r : Text) (ts : List Token)
      → is_quantified r ≡ false
      → Denotes r ts
      → Denotes (46 ∷ 42 ∷ r) (any_run ∷ ts)
  one :
      (r : Text) (ts : List Token)
      → is_quantified r ≡ false
      → Denotes r ts
      → Denotes (46 ∷ r) (any_one ∷ ts)
  escaped :
      (c : ℕ) (r : Text) (ts : List Token)
      → is_metacharacter c ≡ true
      → is_quantified r ≡ false
      → Denotes r ts
      → Denotes (92 ∷ c ∷ r) (literal c ∷ ts)
  plain :
      (c : ℕ) (r : Text) (ts : List Token)
      → is_metacharacter c ≡ false
      → is_quantified r ≡ false
      → Denotes r ts
      → Denotes (c ∷ r) (literal c ∷ ts)

-- `Regex::new` accepts these expressions, and matches them against whole texts.
abbrev pub IsRegex : (Text → Option (Text → Bool)) → Type 0
IsRegex regex =
    (r : Text) (ts : List Token)
    → Denotes r ts
    → (is_match : Text → Bool) × (regex (94 ∷ r) ≡ some is_match)
      × ((text : Text) → is_match text ≡ matches_line ts text)

-- What a character of a glob pattern means.
abbrev pub token : ℕ → Token
token c = if c == 42 then any_run else if c == 63 then any_one else literal c

not_quantified : (chars : Text) → is_quantified (push_chars chars ++ 36 ∷ []) ≡ false
unfolding push_chars push_char is_special
not_quantified [] = refl
not_quantified (c ∷ chars) = ground arith

special_metacharacter :
    (c : ℕ) → (c == 42) ≡ false → (c == 63) ≡ false → is_metacharacter c ≡ is_special c
unfolding is_special
special_metacharacter c a b = ground arith

push_chars-Denotes : (chars : Text) → Denotes (push_chars chars ++ 36 ∷ []) (map token chars)
unfolding push_chars push_char
push_chars-Denotes [] = ends
push_chars-Denotes (c ∷ chars) =
    let r = push_chars chars ++ 36 ∷ [] in
    let q : is_quantified r ≡ false = not_quantified chars in
    let d : Denotes r (map token chars) = push_chars-Denotes chars in
    elim (Bool-cases (c == 42)) [
      | inl t ↦ rw t (run r (map token chars) q d)
      | inr f ↦ elim (Bool-cases (c == 63)) [
        | inl t ↦ rw (f, t) (one r (map token chars) q d)
        | inr g ↦ elim (Bool-cases (is_special c)) [
          | inl t ↦
              rw (f, g, t) (escaped c r (map token chars) (special_metacharacter c f g ∙ t) q d)
          | inr u ↦ rw (f, g, u) (plain c r (map token chars) (special_metacharacter c f g ∙ u) q d)
        ]
      ]
    ]

select-cong :
    (p q : Text → Bool) (files : List Text)
    → All (λ x. p x ≡ q x) files
    → select p files ≡ select q files
select-cong p q [] h = refl
select-cong p q (x ∷ xs) (e, h) = rw (e, select-cong p q xs h) refl

-- Let the regex library follow its syntax, and let no name hold a line feed. Then the files listed for a
-- pattern that is not empty are those whose names match it as a glob: a star for any characters, a
-- question mark for any single one, and every other character for itself, also where it is special in a
-- regular expression.
pub filter_files-select :
    (regex : Text → Option (Text → Bool)) (files : List Text) (pattern : Text)
    → IsRegex regex
    → pattern ≢ []
    → All IsLine files
    → filter_files regex files pattern ≡ select (matches (map token pattern)) files
unfolding filter_files
filter_files-select regex files [] law h lines = absurd (h refl)
filter_files-select regex files (c ∷ chars) law h lines =
    let ts = map token (c ∷ chars) in
    let (is_match, e, m) =
      law (push_chars (c ∷ chars) ++ 36 ∷ []) ts (push_chars-Denotes (c ∷ chars)) in
    rw (filter_files, e)
      (select-cong is_match (matches ts) files (
        All-map IsLine (λ x. is_match x ≡ matches ts x) files
          (λ x line. m x ∙ matches_line-matches ts x line) lines))
