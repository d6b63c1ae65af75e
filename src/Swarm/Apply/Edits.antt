-- ===== src/Swarm/Apply/Edits.antt =====
-- src/swarm/search-replace.ts: what one block does to a text.
use frontier_os.Prelude.{◌<◌, ◌≤◌, ◌+◌, ◌≡◌, ◌↔◌, String, ◌++◌, length, arith}
use frontier_os.Swarm.Search.{Text, count_occurrences, replace_first}
use frontier_os.Swarm.Search.Finding.{
  Occurs, count_occurrences_zero_iff, count_occurrences_one, find_split_first, count_one_overlap,
}
use frontier_os.Swarm.Search.Replacing.{IsPlain, replace_first_plain}
use frontier_os.Swarm.Apply.{Block, not_found, ok, err, edit_once}

edit_once-ok :
    (path : String) (current next : Text) (block : Block)
    → 0 < length block.search_text
    → edit_once path current block ≡ ok next
    → (count_occurrences current block.search_text ≡ 1)
      × (next ≡ replace_first current block.search_text block.replacement)
unfolding edit_once
edit_once-ok path current next block h e = ground arith

-- A block that succeeds replaces the first place where its SEARCH text stands, and keeps all around
-- it. Every other place where that text stands, if there is one, begins inside the place that is
-- replaced, and none is behind it. The SEARCH text must not be empty, nor the replacement have a `$`.
pub edit_once_replaces :
    (path : String) (current next : Text) (block : Block)
    → 0 < length block.search_text
    → IsPlain block.replacement
    → edit_once path current block ≡ ok next
    → (before : Text) × (after : Text) × (current ≡ before ++ (block.search_text ++ after))
      × (next ≡ before ++ (block.replacement ++ after))
      × (¬ Occurs block.search_text after)
      × ((before' after' : Text)
          → current ≡ before' ++ (block.search_text ++ after')
          → (length before ≤ length before')
            × (length before' < length before + length block.search_text))
edit_once_replaces path current next block h plain e =
    let (one, made) = edit_once-ok path current next block h e in
    let (before, after, found, split, absent) =
      count_occurrences_one current block.search_text h one in
    (
      before,
      after,
      split,
      rw (made) (
          replace_first_plain current block.search_text block.replacement before after found plain),
      absent,
      λ before' after' other. (
        find_split_first block.search_text current before after before' after' found other,
        count_one_overlap current block.search_text before after before' after' split absent other,
      ),
    )

-- A block is refused as not found exactly if its SEARCH text, not empty, stands nowhere.
pub edit_once-not_found_iff :
    (path : String) (current : Text) (block : Block)
    → 0 < length block.search_text
    → (edit_once path current block ≡ err (not_found path)) ↔ (¬ Occurs block.search_text current)
unfolding edit_once
edit_once-not_found_iff path current block h =
    let zero_iff = count_occurrences_zero_iff current block.search_text h in
    (
      (λ e. zero_iff.0 (ground arith)),
      (λ absent. let none_there = zero_iff.1 absent in ground (arith, none_there)),
    )
