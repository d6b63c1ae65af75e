-- ===== src/Swarm/Parse/RoundTrip.antt =====
-- src/swarm/search-replace.ts: blocks that are printed in the documented format are read back.
use frontier_os.Prelude.{
  ℕ, zero, suc, ◌≤◌, ◌≡◌, refl, ap, ◌∙◌, true, false, inl, inr, none, some, List, [], ◌∷◌, ◌++◌,
  length, arith, exists, All, length-append,
}
use frontier_os.Prelude.Text.{units}
use frontier_os.Swarm.Search.{Text}
use frontier_os.Arbiter.AntiExample.{is_space}
use frontier_os.Swarm.Parse.{
  is_empty, close_line, behind_run, match_marker, find_marker, find_last_marker, search_unit,
  separator_unit, replace_unit, search_word, replace_word, ParsedBlock, stopped, and_block,
  parse_from, parse_search_replace_blocks,
}
use frontier_os.Swarm.Parse.Markers.{
  quiet, in_line, find_marker-quiet, find_last_marker_behind, find_last_marker-quiet, quiet_line,
}
use frontier_os.Swarm.Parse.Printing.{print_block, print_blocks, IsPrintable, IsLead, read_back}
use frontier_os.Swarm.Parse.Contents.{
  front, back, content-front, content-back, quiet-front, close-front, close-back,
}
use frontier_os.Swarm.Parse.Paths.{lead_path}

opened :
    (t after : Text)
    → close_line (10 ∷ t) ≡ some after
    → find_marker search_unit search_word true (units "<<<<<<< SEARCH" ++ 10 ∷ t) ≡ some ([], after)
unfolding find_marker match_marker behind_run
opened t after h = rw h refl

closed :
    (t after : Text)
    → close_line (10 ∷ t) ≡ some after
    → find_marker replace_unit replace_word true (units ">>>>>>> REPLACE" ++ 10 ∷ t)
      ≡ some ([], after)
unfolding find_marker match_marker behind_run
closed t after h = rw h refl

-- The text behind the separator, up to the closing marker and with it.
abbrev ending : ParsedBlock → Text → Text
ending block more = block.replacement ++ 10 ∷ (units ">>>>>>> REPLACE" ++ 10 ∷ more)

abbrev inside : ParsedBlock → Text
inside block =
    front block.search_text ++ 10 ∷ (units "=======" ++ 10 ∷ (block.replacement ++ 10 ∷ []))

at_path :
    (block : ParsedBlock) (more : Text)
    → IsPrintable block
    → find_marker search_unit search_word true (print_block block more)
      ≡ some (
        block.file_path ++ 10 ∷ [],
        front block.search_text ++ 10 ∷ (units "=======" ++ 10 ∷ ending block more),
      )
unfolding in_line
at_path block more p =
    let behind = block.search_text ++ 10 ∷ (units "=======" ++ 10 ∷ ending block more) in
    find_marker-quiet search_unit search_word true block.file_path
      (units "<<<<<<< SEARCH" ++ 10 ∷ behind) (λ e. ground arith) p.path_quiet
    ∙ ap (in_line block.file_path)
        (opened behind _ (close-front block.search_text _ p.search_content))

found_search :
    (block : ParsedBlock) (lead more : Text)
    → IsPrintable block
    → IsLead lead
    → find_marker search_unit search_word true (lead ++ print_block block more)
      ≡ some (
        lead ++ (block.file_path ++ 10 ∷ []),
        front block.search_text ++ 10 ∷ (units "=======" ++ 10 ∷ ending block more),
      )
unfolding in_line quiet
found_search block lead more p (inl e) = rw e (at_path block more p)
found_search block lead more p (inr e) = rw e (
    find_marker-quiet search_unit search_word true [] (print_block block more) (λ e. ground arith)
      refl
    ∙ ap (in_line []) (at_path block more p))

found_replace :
    (block : ParsedBlock) (more rest : Text)
    → IsPrintable block
    → close_line (10 ∷ more) ≡ some rest
    → find_marker replace_unit replace_word true
        (front block.search_text ++ 10 ∷ (units "=======" ++ 10 ∷ ending block more))
      ≡ some (inside block, rest)
unfolding in_line quiet
found_replace block more rest p h =
    let separator = units "=======" in
    find_marker-quiet replace_unit replace_word true (front block.search_text)
      (separator ++ 10 ∷ ending block more) (λ e. ground arith)
      (quiet-front replace_unit block.search_text (λ e. ground arith) p.search_quiet)
    ∙ ap (in_line (front block.search_text)) (
        find_marker-quiet replace_unit replace_word true separator (ending block more)
          (λ e. ground arith) refl
        ∙ ap (in_line separator) (
            find_marker-quiet replace_unit replace_word true block.replacement
              (units ">>>>>>> REPLACE" ++ 10 ∷ more) (λ e. ground arith) p.replacement_quiet
            ∙ ap (in_line block.replacement) (closed more rest h)))

separated :
    (block : ParsedBlock)
    → IsPrintable block
    → find_last_marker separator_unit none true
        (units "=======" ++ 10 ∷ (block.replacement ++ 10 ∷ []))
      ≡ some ([], back block.replacement)
unfolding match_marker behind_run quiet find_last_marker
separated block p =
    let line = block.replacement ++ 10 ∷ [] in
    let tail = 61 ∷ 61 ∷ 61 ∷ 61 ∷ 61 ∷ 61 ∷ 10 ∷ line in
    let later : find_last_marker separator_unit none false tail ≡ none =
      find_last_marker-quiet separator_unit none false tail (
        quiet_line separator_unit true block.replacement (λ e. ground arith) p.replacement_whole) in
    let here : match_marker separator_unit none (61 ∷ tail) ≡ some (back block.replacement) =
      close-back block.replacement p.replacement_content in
    rw (find_last_marker, later, here) refl

found_separator :
    (block : ParsedBlock)
    → IsPrintable block
    → find_last_marker separator_unit none true (inside block)
      ≡ some (front block.search_text ++ 10 ∷ [], back block.replacement)
unfolding in_line
found_separator block p =
    find_last_marker_behind separator_unit none true (front block.search_text)
      (units "=======" ++ 10 ∷ (block.replacement ++ 10 ∷ [])) ([], back block.replacement)
      (separated block p)

-- One round of the loop reads one printed block.
round :
    (fuel total : ℕ) (block : ParsedBlock) (lead more rest : Text)
    → IsPrintable block
    → IsLead lead
    → close_line (10 ∷ more) ≡ some rest
    → parse_from (suc fuel) total (lead ++ print_block block more)
      ≡ and_block block (parse_from fuel total rest)
unfolding parse_from
round fuel total block lead more rest p which h =
    rw
      (
        parse_from,
        found_search block lead more p which,
        found_replace block more rest p h,
        lead_path block lead p which,
        found_separator block p,
        content-front block.search_text,
        content-back block.replacement,
      )
      refl

-- What the loop is left with in front of further blocks.
abbrev next : List ParsedBlock → Text
next [] = []
next (block ∷ blocks) = 10 ∷ print_blocks (block ∷ blocks)

close_solid :
    (s t : Text)
    → is_empty s ≡ false
    → exists is_space s ≡ false
    → close_line (10 ∷ (s ++ t)) ≡ some (10 ∷ (s ++ t))
unfolding close_line
close_solid [] t filled solid = absurd (ground arith)
close_solid (c ∷ s) t filled solid =
    let first : is_space c ≡ false = ground (arith, solid) in rw first refl

close_next :
    (blocks : List ParsedBlock)
    → All IsPrintable blocks
    → close_line (10 ∷ print_blocks blocks) ≡ some (next blocks)
unfolding close_line
close_next [] ps = refl
close_next (block ∷ blocks) (p, ps) = close_solid block.file_path _ p.path_filled p.path_solid

nothing_left : (fuel total : ℕ) → parse_from fuel total [] ≡ stopped false []
unfolding parse_from find_marker
nothing_left zero total = refl
nothing_left (suc fuel) total = refl

rounds :
    (fuel total : ℕ) (block : ParsedBlock) (blocks : List ParsedBlock) (lead : Text)
    → IsLead lead
    → All IsPrintable (block ∷ blocks)
    → length (block ∷ blocks) ≤ fuel
    → parse_from fuel total (lead ++ print_blocks (block ∷ blocks)) ≡ read_back (block ∷ blocks)
rounds zero total block blocks lead which ps enough = absurd (omega arith)
rounds (suc fuel) total block [] lead which (p, ps) enough =
    round fuel total block lead [] [] p which (close_next [] ps)
    ∙ ap (and_block block) (nothing_left fuel total)
rounds (suc fuel) total block (block' ∷ blocks) lead which (p, ps) enough =
    round fuel total block lead (print_blocks (block' ∷ blocks)) (next (block' ∷ blocks)) p which
      (close_next (block' ∷ blocks) ps)
    ∙ ap (and_block block) (rounds fuel total block' blocks (10 ∷ []) (inr refl) ps (omega arith))

le_append : (s t : Text) → length t ≤ length (s ++ t)
le_append s t = omega (arith, length-append s t)

print_block_grows :
    (block : ParsedBlock) (more : Text) → suc (length more) ≤ length (print_block block more)
print_block_grows block more =
    let closing = units ">>>>>>> REPLACE" ++ 10 ∷ more in
    let ending = units "=======" ++ 10 ∷ (block.replacement ++ 10 ∷ closing) in
    let opening = units "<<<<<<< SEARCH" ++ 10 ∷ (block.search_text ++ 10 ∷ ending) in
    omega (
      arith,
      le_append block.file_path (10 ∷ opening),
      le_append block.search_text (10 ∷ ending),
      le_append block.replacement (10 ∷ closing),
    )

length-print_blocks : (blocks : List ParsedBlock) → length blocks ≤ length (print_blocks blocks)
length-print_blocks [] = omega arith
length-print_blocks (block ∷ blocks) =
    omega (arith, length-print_blocks blocks, print_block_grows block (print_blocks blocks))

-- Blocks that are printed one behind the other in the documented format are read back, all in order
-- and without a warning, if each path is a filled text without spaces, without ticks around it and not
-- one that the parser rejects, each of the two texts is empty or does not begin with a blank line, no
-- line of the path begins with five units of the search marker, none of the two texts with five of
-- the replace marker, and none of the replacement with five of the separator.
pub parse-print_blocks :
    (blocks : List ParsedBlock)
    → All IsPrintable blocks
    → parse_search_replace_blocks (print_blocks blocks) ≡ read_back blocks
unfolding parse_search_replace_blocks
parse-print_blocks [] ps = nothing_left 1 0
parse-print_blocks (block ∷ blocks) ps =
    let total = length (print_blocks (block ∷ blocks)) in
    let enough : length (block ∷ blocks) ≤ suc total =
      omega (arith, length-print_blocks (block ∷ blocks)) in
    rounds (suc total) total block blocks [] (inl refl) ps enough
