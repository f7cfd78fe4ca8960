-- ===== src/Workload/Lines.antt =====
-- Reading the workload: std::getline, and operator>> of std::istringstream.
use rocks_db_wrapper.Base.{
  ℕ, Bool, true, false, ◌||◌, Option, none, some, List, [], ◌∷◌, if◌then◌else◌, ltb, leb, ◌==◌,
  ◌&&◌,
}
use rocks_db_wrapper.Base.Text.{Text}

-- `std::isspace` of the classic locale.
abbrev pub is_space : ℕ → Bool
is_space c = c == 32 || (leb 9 c && leb c 13)

-- A first byte joins the first line.
abbrev pub onto_line : ℕ → List Text → List Text
onto_line c [] = (c ∷ []) ∷ []
onto_line c (line ∷ lines) = (c ∷ line) ∷ lines

-- The lines that `std::getline` gives; a newline at the end starts no line.
abbrev pub lines_of : Text → List Text
lines_of [] = []
lines_of (c ∷ text) = let rest = lines_of text in if c == 10 then [] ∷ rest else onto_line c rest

abbrev pub skip_spaces : Text → Text
skip_spaces [] = []
skip_spaces (c ∷ text) = let rest = skip_spaces text in if is_space c then rest else c ∷ text

-- The characters up to the next blank, and what is left.
abbrev pub word : Text → Text × Text
word [] = ([], [])
word (c ∷ text) = let (w, rest) = word text in if is_space c then ([], c ∷ text) else (c ∷ w, rest)

-- `stream >> key`, where the string is empty before; at the end of the line it stays empty.
abbrev pub next_word : Text → Text × Text
next_word text = word (skip_spaces text)

-- `stream >> operation`
abbrev pub first_char : Text → Option (ℕ × Text)
first_char [] = none
first_char (c ∷ text) = some (c, text)

abbrev pub next_char : Text → Option (ℕ × Text)
next_char text = first_char (skip_spaces text)

-- `std::string`'s `>=`, which compares unsigned bytes.
abbrev pub text_geb : Text → Text → Bool
text_geb a [] = true
text_geb [] (d ∷ b) = false
text_geb (c ∷ a) (d ∷ b) = let rest = text_geb a b in if c == d then rest else ltb d c

-- The cases of the `switch`.
pub data Operation : Type 0 where
  inserts updates point_deletes point_queries range_queries range_deletes unmatched : Operation

-- 'I', 'U', 'D', 'P' or 'Q', 'S', 'R'
abbrev pub operation_of : ℕ → Operation
operation_of c =
    if c == 73
    then inserts
    else if c == 85
    then updates
    else if c == 68
    then point_deletes
    else if c == 80 || (c == 81)
    then point_queries
    else if c == 83
    then range_queries
    else if c == 82
    then range_deletes
    else unmatched
