-- ===== src/Swarm/Parse/Tests.antt =====
-- src/swarm/search-replace.ts: parsing of two printed blocks, and of a text with a blank first line.
use frontier_os.Prelude.{◌≡◌, refl, String, true, List, [], ◌∷◌, inl, inr, some}
use frontier_os.Prelude.Text.{units}
use frontier_os.Swarm.Search.{strip_prefix, find_split, includes}
use frontier_os.Swarm.Parse.{
  ParsedBlock, no_close, no_filename, close_line, behind_run, match_marker, find_marker,
  find_last_marker, last_filled, strip_ticks, is_no_path, extract_trailing_path, content,
  parse_from, parse_search_replace_blocks, stopped,
}
use frontier_os.Swarm.Parse.Markers.{begins, quiet, opens}
use frontier_os.Swarm.Parse.Printing.{print_blocks, IsPrintable, read_back}
use frontier_os.Swarm.Parse.RoundTrip.{parse-print_blocks}

parsing : Unit {0}
unfolding find_split strip_prefix includes close_line behind_run match_marker find_marker
    find_last_marker last_filled strip_ticks is_no_path extract_trailing_path content parse_from
    parse_search_replace_blocks begins quiet opens
parsing = tt

abbrev block_of : List String → ParsedBlock
block_of [] = record { file_path = []; search_text = []; replacement = [] }
block_of (path ∷ []) = record { file_path = units path; search_text = []; replacement = [] }
block_of (path ∷ search_text ∷ []) = record {
  file_path = units path;
  search_text = units search_text;
  replacement = [];
}
block_of (path ∷ search_text ∷ replacement ∷ rest) = record {
  file_path = units path;
  search_text = units search_text;
  replacement = units replacement;
}

abbrev edit : ParsedBlock
edit = block_of ("src/a.ts" ∷ "  a = 1;\n=======\n" ∷ "b" ∷ [])

abbrev create : ParsedBlock
create = block_of ("src/b.ts" ∷ "" ∷ "c\n" ∷ [])

edit-IsPrintable : IsPrintable edit
unfolding parsing
edit-IsPrintable = record {
  path_filled = refl;
  path_solid = refl;
  path_bare = refl;
  path_accepted = refl;
  path_quiet = refl;
  search_content = inr refl;
  search_quiet = refl;
  replacement_content = inr refl;
  replacement_quiet = refl;
  replacement_whole = refl;
}

create-IsPrintable : IsPrintable create
unfolding parsing
create-IsPrintable = record {
  path_filled = refl;
  path_solid = refl;
  path_bare = refl;
  path_accepted = refl;
  path_quiet = refl;
  search_content = inl refl;
  search_quiet = refl;
  replacement_content = inr refl;
  replacement_quiet = refl;
  replacement_whole = refl;
}

parse-print_blocks_example :
    parse_search_replace_blocks (print_blocks (edit ∷ create ∷ [])) ≡ read_back (edit ∷ create ∷ [])
parse-print_blocks_example =
    parse-print_blocks (edit ∷ create ∷ []) (edit-IsPrintable, (create-IsPrintable, tt))

-- A blank first line is lost.
blank_line_lost :
    parse_search_replace_blocks (print_blocks (block_of ("a" ∷ "\nb" ∷ "c" ∷ []) ∷ []))
    ≡ read_back (block_of ("a" ∷ "b" ∷ "c" ∷ []) ∷ [])
unfolding parsing
blank_line_lost = refl

unclosed :
    parse_search_replace_blocks (units "a\n<<<<< SEARCH\nb\n")
    ≡ stopped true (no_close 2 (some (units "a")) ∷ [])
unfolding parsing
unclosed = refl

unnamed :
    (parse_search_replace_blocks
      (units "two words\n<<<<<<<<< SEARCH\nb\n=====\nc\n>>>>> REPLACE")).warnings
    ≡ no_filename 10 ∷ []
unfolding parsing
unnamed = refl
