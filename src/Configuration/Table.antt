-- ===== src/Configuration/Table.antt =====
-- src/jvc/configuration.py: `parse_registry_table`.
use jvc_core.Base.{
  ℕ, Bool, true, false, not, ◌&&◌, ◌||◌, Option, none, some, List, [], ◌∷◌, map, Text, codes, strip,
  strip_code, split, casefold, starts_with, has_infix, is_empty, nat_eq, select, if◌then◌else◌,
}
use mathlib.Core.List.{reverse}
use jvc_core.Exec.{Result, ok, err}
use jvc_core.Executor.Repository.{is_line_break, push_line}
use jvc_core.Configuration.Registry.{Route}

pub data TableError : Type 0 where
  no_header no_routes : TableError
  bad_columns bad_identity : Text → TableError

-- `text.splitlines()`; the flag is set after a carriage return, which a line feed may follow.
unfoldable pub lines_of : Bool → Text → List Text
lines_of after_cr [] = []
lines_of after_cr (c ∷ s) =
    let same = lines_of false s in
    let anew = lines_of true s in
    if after_cr && nat_eq c 10
    then same
    else if nat_eq c 13
    then [] ∷ anew
    else if is_line_break c
    then [] ∷ same
    else push_line c same

abbrev pub remove_code : ℕ → Text → Text
remove_code d s = select (λ c. not (nat_eq c d)) s

abbrev pub table_header : Text
table_header =
    codes
      "| Project ID | Aliases and keywords | Absolute project path | Required startup | Handoff/current state | Status |"

unfoldable pub is_header : Text → Bool
is_header line =
    has_infix (remove_code b' ' table_header) (remove_code b' ' line)
    || (has_infix (codes "| Project ID |") line && has_infix (codes "| Status |") line)

-- The lines after the separator that follows the header.
abbrev pub skip_separator : List Text → List Text
skip_separator [] = []
skip_separator (line ∷ lines) = lines

unfoldable pub rows_of : List Text → Option (List Text)
unfolding is_header
rows_of [] = none
rows_of (line ∷ lines) =
    let rest = rows_of lines in if is_header line then some (skip_separator lines) else rest

-- "`([^`]+)`": what is collected since a backtick, in reverse, if there was one.
unfoldable pub code_spans : Option Text → Text → List Text
code_spans state [] = []
code_spans none (c ∷ s) =
    let outside = code_spans none s in
    let inside = code_spans (some []) s in if nat_eq c b'`' then inside else outside
code_spans (some span) (c ∷ s) =
    let outside = code_spans none s in
    let anew = code_spans (some []) s in
    let inside = code_spans (some (c ∷ span)) s in
    if not (nat_eq c b'`') then inside else if is_empty span then anew else reverse span ∷ outside

unfoldable pub code_values : Text → List Text
unfolding code_spans
code_values cell = select (λ v. not (is_empty v)) (map strip (code_spans none cell))

unfoldable pub split_row : Text → List Text
split_row line = map strip (split b'|' (strip_code b'|' (strip line)))

unfoldable pub alias_list : Text → List Text
alias_list cell =
    map casefold (select (λ a. not (is_empty a)) (map strip (split b',' (remove_code b'`' cell))))

-- The path of a root, taken from the directory of the table if it is not absolute.
module _ (root_of : Text → Text) where
  abbrev pub make_route :
      Text → List Text → List Text → List Text → List Text → Text → Text → Result TableError Route
  make_route line (id ∷ []) (root ∷ []) aliases startup handoff status = ok (record {
    project_id = id;
    aliases = aliases;
    root = root_of root;
    startup = startup;
    handoff = handoff;
    status = casefold (strip (remove_code b'`' status));
  })
  make_route line ids roots aliases startup handoff status = err (bad_identity line)

  abbrev pub read_cells : Text → List Text → Result TableError Route
  read_cells line (ids ∷ aliases ∷ roots ∷ startup ∷ handoff ∷ status ∷ []) =
      make_route line (code_values ids) (code_values roots) (alias_list aliases)
        (code_values startup) handoff status
  read_cells line cells = err (bad_columns line)

  unfoldable pub read_row : Text → Result TableError Route
  unfolding split_row code_values alias_list
  read_row line = read_cells line (split_row (strip line))

  abbrev pub push_route :
      Result TableError Route → Result TableError (List Route) → Result TableError (List Route)
  push_route (err e) rest = err e
  push_route (ok r) (err e) = err e
  push_route (ok r) (ok rs) = ok (r ∷ rs)

  -- The rows end at the first line that does not begin with a bar.
  unfoldable pub read_rows : List Text → Result TableError (List Route)
  unfolding read_row
  read_rows [] = ok []
  read_rows (line ∷ lines) =
      let rest = read_rows lines in
      if starts_with (codes "|") (strip line) then push_route (read_row line) rest else ok []

  abbrev pub require_routes : Result TableError (List Route) → Result TableError (List Route)
  require_routes (ok []) = err no_routes
  require_routes r = r

  abbrev pub read_table : Option (List Text) → Result TableError (List Route)
  read_table none = err no_header
  read_table (some rows) = require_routes (read_rows rows)

  unfoldable pub parse_registry_table : Text → Result TableError (List Route)
  unfolding lines_of rows_of read_rows
  parse_registry_table text = read_table (rows_of (lines_of false text))
