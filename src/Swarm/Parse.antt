-- ===== src/Swarm/Parse.antt =====
-- `parseSearchReplaceBlocks` of src/swarm/search-replace.ts, on UTF-16 code units. A place in the
-- text is what stands before it and what stands behind it; a file's path is a list of units here.
pub mod Markers
pub mod Printing
pub mod Paths
pub mod Contents
pub mod RoundTrip
mod Tests
use frontier_os.Prelude.{
  ℕ, zero, suc, ◌+◌, ◌-◌, Bool, true, false, ◌&&◌, ◌||◌, Option, none, some, List, [], ◌∷◌, ◌++◌,
  length, leb, ◌==◌, if◌then◌else◌,
}
use frontier_os.Prelude.Text.{units}
use frontier_os.Swarm.Search.{Text, strip_prefix, includes, prepend}
use frontier_os.Arbiter.AntiExample.{is_space, split_lines, drop_while, trim_end}

-- The line terminators of `^` and `$` in a regular expression with the flag `m`.
abbrev pub is_terminator : ℕ → Bool
is_terminator c = c == 10 || c == 13 || c == 0x2028 || c == 0x2029

abbrev pub is_empty : Text → Bool
is_empty [] = true
is_empty (c ∷ s) = false

-- `\s*$`: as many spaces as leave the place at an end of a line.
unfoldable pub close_line : Text → Option Text
close_line [] = some []
close_line (c ∷ s) =
    let rest = close_line s in
    if is_space c
    then elim rest [
      | some after ↦ some after
      | none ↦ if is_terminator c then some (c ∷ s) else none
    ]
    else none

abbrev pub count_run : ℕ → Text → ℕ
count_run c [] = 0
count_run c (d ∷ s) = let rest = count_run c s in if d == c then suc rest else 0

-- `\s+` and the keyword, where there is one, and `\s*$`.
unfoldable pub behind_run : Option Text → Text → Option Text
unfolding close_line strip_prefix
behind_run none s = close_line s
behind_run (some word) [] = none
behind_run (some word) (c ∷ s) =
    if is_space c
    then elim (strip_prefix word (drop_while is_space s)) [
      | none ↦ none
      | some rest ↦ close_line rest
    ]
    else none

-- The expressions of the three markers: 5 to 15 units `c`, and what is behind them.
unfoldable pub match_marker : ℕ → Option Text → Text → Option Text
unfolding behind_run
match_marker c word s =
    let n = count_run c s in
    if leb 5 n && leb n 15 then behind_run word (drop_while (λ d. d == c) s) else none

-- `findMarker`: the first match at the start of a line, which the start of the slice counts as.
unfoldable pub find_marker : ℕ → Option Text → Bool → Text → Option (Text × Text)
unfolding match_marker
find_marker c word at_start [] = none
find_marker c word at_start (d ∷ s) =
    let later = find_marker c word (is_terminator d) s in
    if at_start
    then elim (match_marker c word (d ∷ s)) [
      | none ↦ prepend d later
      | some after ↦ some ([], after)
    ]
    else prepend d later

-- `findLastMarker`. A match ends in spaces, where no other begins, so that none is passed over.
unfoldable pub find_last_marker : ℕ → Option Text → Bool → Text → Option (Text × Text)
unfolding match_marker
find_last_marker c word at_start [] = none
find_last_marker c word at_start (d ∷ s) =
    let later = find_last_marker c word (is_terminator d) s in
    elim later [
      | some found ↦ prepend d (some found)
      | none ↦
          if at_start
          then elim (match_marker c word (d ∷ s)) [ none ↦ none | some after ↦ some ([], after) ]
          else none
    ]

abbrev pub search_unit : ℕ
search_unit = b'<'

abbrev pub separator_unit : ℕ
separator_unit = b'='

abbrev pub replace_unit : ℕ
replace_unit = b'>'

abbrev pub search_word : Option Text
search_word = some (units "SEARCH")

abbrev pub replace_word : Option Text
replace_word = some (units "REPLACE")

-- `trim`
abbrev pub trim : Text → Text
trim s = trim_end (drop_while is_space s)

-- The last line that is not blank, trimmed; empty where all are blank.
unfoldable pub last_filled : List Text → Text
last_filled [] = []
last_filled (line ∷ lines) =
    let rest = last_filled lines in if is_empty rest then trim line else rest

abbrev pub is_tick : ℕ → Bool
is_tick c = c == 96

abbrev pub drop_last_ticks : Text → Text
drop_last_ticks [] = []
drop_last_ticks (c ∷ s) =
    let rest = drop_last_ticks s in
    elim rest [ [] ↦ if is_tick c then [] else c ∷ [] | d ∷ more ↦ c ∷ d ∷ more ]

-- ``trimmed.replace(/^`+|`+$/g, "").trim()``
unfoldable pub strip_ticks : Text → Text
strip_ticks s = trim (drop_last_ticks (drop_while is_tick s))

abbrev pub starts : Text → Text → Bool
starts p s = elim (strip_prefix p s) [ none ↦ false | some rest ↦ true ]

abbrev pub is_exactly : Text → Text → Bool
is_exactly p s = elim (strip_prefix p s) [ none ↦ false | some rest ↦ is_empty rest ]

-- What is no path: sentences and bare markers.
unfoldable pub is_no_path : Text → Bool
unfolding includes strip_prefix
is_no_path s =
    is_empty s
    || includes s (32 ∷ [])
    || starts (units "<<<") s
    || starts (units ">>>") s
    || is_exactly (units "===") s

unfoldable pub extract_trailing_path : Text → Option Text
unfolding last_filled strip_ticks is_no_path
extract_trailing_path s =
    let line = last_filled (split_lines s) in
    let path = strip_ticks line in
    if is_empty line then none else if is_no_path path then none else some path

-- `stripOneLeadingNewline`
abbrev pub strip_leading_newline : Text → Text
strip_leading_newline [] = []
strip_leading_newline (c ∷ []) = if c == 10 then [] else c ∷ []
strip_leading_newline (c ∷ d ∷ s) =
    if c == 13 && d == 10 then s else if c == 10 then d ∷ s else c ∷ d ∷ s

-- `replace(/\n$/, "")`
abbrev pub strip_last_newline : Text → Text
strip_last_newline [] = []
strip_last_newline (c ∷ []) = if c == 10 then [] else c ∷ []
strip_last_newline (c ∷ d ∷ s) = c ∷ strip_last_newline (d ∷ s)

unfoldable pub content : Text → Text
content s = strip_last_newline (strip_leading_newline s)

pub record ParsedBlock : Type 0 where
  pub file_path : Text
  pub search_text : Text
  pub replacement : Text

-- The warnings, with the offset of the marker.
pub data Warning : Type 0 where
  no_close : ℕ → Option Text → Warning
  no_filename : ℕ → Warning
  no_separator : ℕ → Text → Warning

pub record ParseResult : Type 0 where
  pub blocks : List ParsedBlock
  pub had_any_markers : Bool
  pub warnings : List Warning

abbrev pub stopped : Bool → List Warning → ParseResult
stopped marked warnings = record { blocks = []; had_any_markers = marked; warnings = warnings }

abbrev pub and_warning : Warning → ParseResult → ParseResult
and_warning warning result = record result {
  had_any_markers = true;
  warnings = warning ∷ result.warnings;
}

abbrev pub and_block : ParsedBlock → ParseResult → ParseResult
and_block block result = record result { blocks = block ∷ result.blocks; had_any_markers = true }

-- The loop, from a cursor on, over a text of `total` units.
unfoldable pub parse_from : ℕ → ℕ → Text → ParseResult
unfolding find_marker find_last_marker extract_trailing_path content
parse_from zero total text = stopped false []
parse_from (suc fuel) total text = elim (find_marker search_unit search_word true text) [
  | none ↦ stopped false []
  | some (before, body) ↦
      let offset = (total - length text) + length before in
      let path = extract_trailing_path before in
      elim (find_marker replace_unit replace_word true body) [
        | none ↦ stopped true (no_close offset path ∷ [])
        | some (inside, rest) ↦
            let further = parse_from fuel total rest in
            elim path [
              | none ↦ and_warning (no_filename offset) further
              | some file_path ↦ elim (find_last_marker separator_unit none true inside) [
                | none ↦ stopped true (no_separator offset file_path ∷ [])
                | some (search_part, replace_part) ↦
                    and_block
                      (record {
                        file_path = file_path;
                        search_text = content search_part;
                        replacement = content replace_part;
                      })
                      further
              ]
            ]
      ]
]

-- Each round takes the units of two markers off.
unfoldable pub parse_search_replace_blocks : Text → ParseResult
unfolding parse_from
parse_search_replace_blocks text = parse_from (suc (length text)) (length text) text
