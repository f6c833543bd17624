-- ===== src/Util/Filter.antt =====
-- src/util.rs, `filter_files()`: the files whose names match a glob pattern. A text is the list of its
-- characters.
use cedana_image_streamer.Prelude.{
  ◌==◌, ◌||◌, if◌then◌else◌, Bool, Text, Option, none, some, List, [], ◌∷◌, ◌++◌, select,
}
use cedana_image_streamer.Prelude.{ℕ}

-- '.' | '+' | '(' | ')' | '[' | ']' | '{' | '}' | '^' | '$' | '|' | '\\'
unfoldable pub is_special : ℕ → Bool
is_special ch =
    ch == 46
    || ch == 43
    || ch == 40
    || ch == 41
    || ch == 91
    || ch == 93
    || ch == 123
    || ch == 125
    || ch == 94
    || ch == 36
    || ch == 124
    || ch == 92

-- The arms of `match ch`: '*' is 42, '?' is 63, '.' is 46 and '\\' is 92.
unfoldable pub push_char : ℕ → Text
unfolding is_special
push_char ch =
    if ch == 42
    then 46 ∷ 42 ∷ []
    else if ch == 63
    then 46 ∷ []
    else if is_special ch
    then 92 ∷ ch ∷ []
    else ch ∷ []

-- `for ch in pattern.chars() { .. }`
unfoldable pub push_chars : Text → Text
unfolding push_char
push_chars [] = []
push_chars (ch ∷ chars) = push_char ch ++ push_chars chars

-- `regex` is `Regex::new`; '^' is 94 and '$' is 36.
unfoldable pub filter_files : (Text → Option (Text → Bool)) → List Text → Text → List Text
unfolding push_chars
filter_files regex files [] = files
filter_files regex files (ch ∷ chars) = elim (regex (94 ∷ push_chars (ch ∷ chars) ++ 36 ∷ [])) [
  | none ↦ []
  | some is_match ↦ select is_match files
]
