-- ===== src/Routing/Words.antt =====
-- src/jvc/routing.py: `normalize`, `alias_present` and the markers of several projects.
use jvc_core.Base.{
  ℕ, Bool, true, false, not, ◌&&◌, ◌||◌, Option, none, some, List, [], ◌∷◌, ◌++◌, map, Text, codes,
  casefold, split, select, is_empty, strip_prefix, is_space, has_code, any, contains, nat_eq, leb,
  if◌then◌else◌,
}

-- `[a-z0-9]`
abbrev pub is_token : ℕ → Bool
is_token c = (leb b'a' c && leb c b'z') || (leb b'0' c && leb c b'9')

abbrev pub blank_code : ℕ → ℕ
blank_code c = if is_token c then c else 32

-- The words of a text: `split` drops what the runs of other characters leave.
unfoldable pub words : Text → List Text
unfolding casefold
words s = select (λ w. not (is_empty w)) (split 32 (map blank_code (casefold s)))

abbrev pub spaced : List Text → Text
spaced [] = []
spaced (w ∷ ws) = 32 ∷ w ++ spaced ws

-- `" ".join(ws)`
abbrev pub join_words : List Text → Text
join_words [] = []
join_words (w ∷ ws) = w ++ spaced ws

unfoldable pub normalize : Text → Text
unfolding words
normalize s = join_words (words s)

abbrev pub follows_space : Option Text → Bool
follows_space none = false
follows_space (some []) = true
follows_space (some (c ∷ s)) = is_space c

-- The alias stands at the beginning, and the text or white space ends it.
abbrev pub occurs : Text → Text → Bool
occurs alias s = follows_space (strip_prefix alias s)

-- The search of the regular expression, with whether the text or white space has just begun.
unfoldable pub present_from : Bool → Text → Text → Bool
unfolding is_space strip_prefix
present_from start alias [] = start && occurs alias []
present_from start alias (c ∷ s) =
    (start && occurs alias (c ∷ s)) || present_from (is_space c) alias s

unfoldable pub alias_present : Text → Text → Bool
unfolding normalize present_from
alias_present query alias =
    if is_empty (normalize alias) then false else present_from true (normalize alias) query

abbrev pub is_ascii_word : ℕ → Bool
is_ascii_word c = is_token c || (leb b'A' c && leb c b'Z') || nat_eq c b'_'

-- Given which characters beyond ASCII are of a word, `\w`.
abbrev pub break_code : (ℕ → Bool) → ℕ → ℕ
break_code unicode_word c = if is_ascii_word c || (leb 128 c && unicode_word c) then c else 32

abbrev pub multi_words : List Text
multi_words =
    codes "and"
    ∷ codes "both"
    ∷ codes "with"
    ∷ codes "between"
    ∷ codes "compare"
    ∷ codes "connect"
    ∷ codes "across"
    ∷ []

-- `MULTI_MARKERS.search(query)`
unfoldable pub has_marker : (ℕ → Bool) → Text → Bool
unfolding casefold
has_marker unicode_word query =
    any (λ w. contains w multi_words) (split 32 (map (break_code unicode_word) (casefold query)))
    || has_code b'+' query
    || has_code b'/' query
    || has_code b'&' query
