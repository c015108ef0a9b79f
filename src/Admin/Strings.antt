-- ===== src/Admin/Strings.antt =====
-- What the handlers use of Go's strings, unicode and utf8 packages, on lists of character codes; and
-- normalizeName of internal/httpserver/admin_organizations.go.
use promo_go.Base.{
  ℕ, ◌+◌, Bool, Option, none, some, [], ◌∷◌, Text, text_eq, leb, ltb, not, ◌&&◌, ◌||◌, ◌==◌,
  if◌then◌else◌, length,
}

-- unicode.IsSpace
unfoldable pub is_space : ℕ → Bool
is_space c =
    (leb 9 c && leb c 13)
    || (c == 32)
    || (c == 133)
    || (c == 160)
    || (c == 5760)
    || (leb 8192 c && leb c 8202)
    || (c == 8232)
    || (c == 8233)
    || (c == 8239)
    || (c == 8287)
    || (c == 12288)

unfoldable pub trim_left : Text → Text
unfolding is_space
trim_left [] = []
trim_left (c ∷ s) = let rest = trim_left s in if is_space c then rest else c ∷ s

-- A character goes when it and all after it are spaces.
unfoldable pub trim_right : Text → Text
unfolding is_space
trim_right [] = []
trim_right (c ∷ s) =
    let rest = trim_right s in if is_space c && text_eq rest [] then [] else c ∷ rest

-- strings.TrimSpace
unfoldable pub trim_space : Text → Text
unfolding trim_left trim_right
trim_space s = trim_right (trim_left s)

-- The bytes of a character in UTF-8.
abbrev pub rune_length : ℕ → ℕ
rune_length c = if ltb c 128 then 1 else if ltb c 2048 then 2 else if ltb c 65536 then 3 else 4

-- len(s)
unfoldable pub byte_length : Text → ℕ
byte_length [] = 0
byte_length (c ∷ s) = rune_length c + byte_length s

abbrev pub max_name_length : ℕ
max_name_length = 255

-- normalizeName: the name, when it is usable.
unfoldable pub normalize_name : Text → Option Text
unfolding trim_space
normalize_name raw =
    let name = trim_space raw in
    if not (text_eq name []) && leb (length name) max_name_length then some name else none
