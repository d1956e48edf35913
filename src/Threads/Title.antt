-- ===== src/Threads/Title.antt =====
-- thread-title.ts: the title that is derived from a message, over UTF-16 code units.
pub mod Laws
use fleet_agent.Base.{
  ℕ, ◌-◌, String, ◌≡◌, refl, Bool, true, false, not, ◌&&◌, Option, none, some, List, [], ◌∷◌, ◌++◌,
  map, find, take, length, leb, nat_eq, is_space, if◌then◌else◌, units, keep,
}
use fleet_agent.Threads.Units.{is_blank, trim, trim_end}

abbrev pub default_thread_title : List ℕ
default_thread_title = units "New conversation"

abbrev pub max_thread_title_length : ℕ
max_thread_title_length = 48

-- the character "…"
abbrev pub ellipsis : ℕ
ellipsis = 0x2026

abbrev starts_with_newline : List ℕ → Bool
starts_with_newline [] = false
starts_with_newline (c ∷ cs) = nat_eq c b'\n'

-- a character before the lines of the rest
abbrev put_unit : ℕ → Bool → List (List ℕ) → List (List ℕ)
put_unit c newline_next [] = (c ∷ []) ∷ []
put_unit c newline_next (l ∷ ls) =
    if nat_eq c b'\n'
    then [] ∷ l ∷ ls
    else if nat_eq c b'\r' && newline_next
    then l ∷ ls
    else (c ∷ l) ∷ ls

-- `query.split(/\r?\n/)`
unfoldable pub split_lines : List ℕ → List (List ℕ)
split_lines [] = [] ∷ []
split_lines (c ∷ cs) = put_unit c (starts_with_newline cs) (split_lines cs)

abbrev pub starts_with_space : List ℕ → Bool
starts_with_space [] = false
starts_with_space (c ∷ cs) = is_space c

-- `line.replace(/\s+/g, ' ')`: the last character of a run of spaces becomes the space
unfoldable pub collapse : List ℕ → List ℕ
collapse [] = []
collapse (c ∷ cs) =
    let rest = collapse cs in
    if is_space c then (if starts_with_space cs then rest else b' ' ∷ rest) else c ∷ rest

unfoldable pub first_visible_line : List ℕ → Option (List ℕ)
unfolding is_blank
first_visible_line query =
    find (λ line. not (is_blank line)) (map (λ line. trim (collapse line)) (split_lines query))

-- the title of a line
unfoldable pub shorten : List ℕ → List ℕ
shorten line =
    if leb (length line) max_thread_title_length
    then line
    else trim_end (take (max_thread_title_length - 1) line) ++ ellipsis ∷ []

abbrev titled : Option (List ℕ) → List ℕ
titled none = default_thread_title
titled (some line) = shorten line

unfoldable pub derive_thread_title : List ℕ → List ℕ
derive_thread_title query = titled (first_visible_line query)
