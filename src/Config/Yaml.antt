-- ===== src/Config/Yaml.antt =====
-- `parseYAML` of internal/config/config.go: flat lines of a key and a value.
use kage.Prelude.{
  ℕ, zero, suc, ◌-◌, ◌&&◌, ◌||◌, Bool, Option, none, some, List, [], ◌∷◌, Bytes, length, take, drop,
  leb, ◌==◌, if◌then◌else◌,
}
use kage.Outcome.{Outcome, ok, err, ◌>>=◌}
use kage.Config.{Config, ConfigError, line_too_long, apply_field}

-- The lines of bufio.ScanLines, with their carriage returns; a newline at the end starts no line.
unfoldable pub add_byte : ℕ → List Bytes → List Bytes
add_byte c [] = (c ∷ []) ∷ []
add_byte c (line ∷ lines) = (c ∷ line) ∷ lines

unfoldable pub split_lines : Bytes → List Bytes
split_lines [] = []
split_lines (c ∷ cs) = let rest = split_lines cs in if c == 10 then [] ∷ rest else add_byte c rest

-- The width of the character that unicode.IsSpace accepts at the start of a text, or 0. Those of
-- two and three bytes are U+0085 and U+00A0, and U+1680, U+2000 to U+200A, U+2028, U+2029, U+202F,
-- U+205F and U+3000, in UTF-8.
abbrev pub is_ascii_space : ℕ → Bool
is_ascii_space c = (leb 9 c && leb c 13) || c == 32

abbrev pub is_wide_space : ℕ → ℕ → ℕ → Bool
is_wide_space a b c =
    (a == 0xe1 && b == 0x9a && c == 0x80)
    || (a == 0xe2
        && b == 0x80
        && ((leb 0x80 c && leb c 0x8a) || c == 0xa8 || c == 0xa9 || c == 0xaf))
    || (a == 0xe2 && b == 0x81 && c == 0x9f)
    || (a == 0xe3 && b == 0x80 && c == 0x80)

unfoldable pub space_width : Bytes → ℕ
space_width [] = 0
space_width (a ∷ []) = if is_ascii_space a then 1 else 0
space_width (a ∷ b ∷ []) =
    if is_ascii_space a then 1 else if a == 0xc2 && (b == 0x85 || b == 0xa0) then 2 else 0
space_width (a ∷ b ∷ c ∷ _) =
    if is_ascii_space a
    then 1
    else if a == 0xc2 && (b == 0x85 || b == 0xa0)
    then 2
    else if is_wide_space a b c
    then 3
    else 0

-- The same at the end of a text, which is given from its end on.
unfoldable pub space_width_back : Bytes → ℕ
space_width_back [] = 0
space_width_back (a ∷ []) = if is_ascii_space a then 1 else 0
space_width_back (b ∷ a ∷ []) =
    if is_ascii_space b then 1 else if a == 0xc2 && (b == 0x85 || b == 0xa0) then 2 else 0
space_width_back (c ∷ b ∷ a ∷ _) =
    if is_ascii_space c
    then 1
    else if b == 0xc2 && (c == 0x85 || c == 0xa0)
    then 2
    else if is_wide_space a b c
    then 3
    else 0

-- Drops the spaces at the front; the first number counts the bytes of the space at hand that are
-- still to be dropped.
unfoldable pub skip_spaces : (Bytes → ℕ) → ℕ → Bytes → Bytes
skip_spaces width n [] = []
skip_spaces width (suc n) (c ∷ cs) = skip_spaces width n cs
skip_spaces width zero (c ∷ cs) =
    let w = width (c ∷ cs) in
    let rest = skip_spaces width (w - 1) cs in if w == 0 then c ∷ cs else rest

unfoldable pub reverse_onto : Bytes → Bytes → Bytes
reverse_onto [] acc = acc
reverse_onto (c ∷ cs) acc = reverse_onto cs (c ∷ acc)

-- strings.TrimSpace.
unfoldable pub trim_space : Bytes → Bytes
trim_space s =
    let front = skip_spaces space_width 0 s in
    reverse_onto (skip_spaces space_width_back 0 (reverse_onto front [])) []

-- What stands before the first byte `b` and what stands behind it.
unfoldable pub cut_at : ℕ → Bytes → Option (Bytes × Bytes)
cut_at b [] = none
cut_at b (c ∷ cs) =
    let rest = cut_at b cs in
    if c == b
    then some ([], cs)
    else elim rest [ none ↦ none | some (before, behind) ↦ some (c ∷ before, behind) ]

abbrev pub first : Bytes → ℕ
first [] = 0
first (c ∷ cs) = c

-- The value without the quotes around it, if it has a pair.
unfoldable pub strip_quotes : Bytes → Bytes
strip_quotes val =
    let head = first val in
    let last = first (drop (length val - 1) val) in
    if leb 2 (length val) && ((head == b'"' && last == b'"') || (head == 39 && last == 39))
    then take (length val - 2) (drop 1 val)
    else val

-- The value without a comment behind it.
unfoldable pub strip_comment : Bytes → Bytes
strip_comment val = elim (cut_at b'#' val) [ none ↦ val | some (before, _) ↦ trim_space before ]

-- The key and the value of a line that is trimmed; `none` is a line that is passed over.
unfoldable pub key_value : Bytes → Option (Bytes × Bytes)
key_value line = if length line == 0 || first line == b'#' then none else elim (cut_at b':' line) [
  | none ↦ none
  | some (key, val) ↦ some (trim_space key, strip_comment (strip_quotes (trim_space val)))
]

unfoldable pub apply_pair :
    (Bytes → Option ℕ) → Config → Option (Bytes × Bytes) → Outcome ConfigError Config
apply_pair parse_duration cfg none = ok cfg
apply_pair parse_duration cfg (some (key, val)) = apply_field parse_duration cfg key val

-- bufio.Scanner gives up at a line of 65536 bytes. Trimming drops a carriage return at the end, too.
unfoldable pub apply_lines : (Bytes → Option ℕ) → List Bytes → Config → Outcome ConfigError Config
apply_lines parse_duration [] cfg = ok cfg
apply_lines parse_duration (line ∷ lines) cfg =
    if leb 65536 (length line) then err line_too_long else do
      cfg ← apply_pair parse_duration cfg (key_value (trim_space line))
      apply_lines parse_duration lines cfg

unfoldable pub parse_yaml : (Bytes → Option ℕ) → Bytes → Config → Outcome ConfigError Config
parse_yaml parse_duration text cfg = apply_lines parse_duration (split_lines text) cfg
