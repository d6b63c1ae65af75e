-- ===== src/Swarm/Parse/Printing.antt =====
-- src/swarm/search-replace.ts: blocks in the documented format, and which of them can be read back.
use frontier_os.Prelude.{◌≡◌, true, false, ◌⊎◌, List, [], ◌∷◌, ◌++◌, exists}
use frontier_os.Prelude.Text.{units}
use frontier_os.Swarm.Search.{Text}
use frontier_os.Arbiter.AntiExample.{is_space}
use frontier_os.Swarm.Parse.{
  is_empty, search_unit, separator_unit, replace_unit, strip_ticks, is_no_path, ParsedBlock,
  ParseResult, stopped, and_block,
}
use frontier_os.Swarm.Parse.Markers.{quiet, opens}

-- The block in the documented format, in front of a text.
abbrev pub print_block : ParsedBlock → Text → Text
print_block block more =
    block.file_path
    ++ 10
      ∷ (units "<<<<<<< SEARCH"
          ++ 10
            ∷ (block.search_text
                ++ 10
                  ∷ (units "======="
                      ++ 10 ∷ (block.replacement ++ 10 ∷ (units ">>>>>>> REPLACE" ++ 10 ∷ more)))))

abbrev pub print_blocks : List ParsedBlock → Text
print_blocks [] = []
print_blocks (block ∷ blocks) = print_block block (print_blocks blocks)

-- A text that is empty or whose first line is not blank.
abbrev pub IsContent : Text → Type 0
IsContent s = (s ≡ []) ⊎ (opens s ≡ true)

pub record IsPrintable (block : ParsedBlock) : Type 0 where
  pub path_filled : is_empty block.file_path ≡ false
  pub path_solid : exists is_space block.file_path ≡ false
  pub path_bare : strip_ticks block.file_path ≡ block.file_path
  pub path_accepted : is_no_path block.file_path ≡ false
  pub path_quiet : quiet search_unit true block.file_path ≡ true
  pub search_content : IsContent block.search_text
  pub search_quiet : quiet replace_unit true block.search_text ≡ true
  pub replacement_content : IsContent block.replacement
  pub replacement_quiet : quiet replace_unit true block.replacement ≡ true
  pub replacement_whole : quiet separator_unit true block.replacement ≡ true

-- What may stand in front of a printed block: nothing, or the end of the line before.
abbrev pub IsLead : Text → Type 0
IsLead lead = (lead ≡ []) ⊎ (lead ≡ 10 ∷ [])

-- What is to be read: the blocks, and no warning.
abbrev pub read_back : List ParsedBlock → ParseResult
read_back [] = stopped false []
read_back (block ∷ blocks) = and_block block (read_back blocks)
