-- ===== src/Swarm/Parse/Paths.antt =====
-- src/swarm/search-replace.ts: the path in front of a block's first marker.
use frontier_os.Prelude.{◌≡◌, refl, false, inl, inr, some, [], ◌∷◌, ◌++◌, ◌==◌, arith, exists}
use frontier_os.Swarm.Search.{Text}
use frontier_os.Arbiter.AntiExample.{is_space, split_lines, trim_end}
use frontier_os.Swarm.Parse.{trim, last_filled, extract_trailing_path, ParsedBlock}
use frontier_os.Swarm.Parse.Printing.{IsPrintable, IsLead}

trim_end_solid : (s : Text) → exists is_space s ≡ false → trim_end s ≡ s
trim_end_solid [] h = refl
trim_end_solid (c ∷ []) h = let solid : is_space c ≡ false = ground (arith, h) in rw solid refl
trim_end_solid (c ∷ d ∷ s) h = rw (trim_end_solid (d ∷ s) (ground (arith, h))) refl

trim_solid : (s : Text) → exists is_space s ≡ false → trim s ≡ s
trim_solid [] h = refl
trim_solid (c ∷ s) h =
    let solid : is_space c ≡ false = ground (arith, h) in rw solid (trim_end_solid (c ∷ s) h)

split_solid :
    (s t : Text) → exists is_space s ≡ false → split_lines (s ++ 10 ∷ t) ≡ s ∷ split_lines t
split_solid [] t h = refl
split_solid (c ∷ s) t h =
    let inner : (c == 10) ≡ false = ground (arith, h) in
    rw (inner, split_solid s t (ground (arith, h))) refl

line_path :
    (block : ParsedBlock)
    → IsPrintable block
    → last_filled (block.file_path ∷ [] ∷ []) ≡ block.file_path
unfolding last_filled
line_path block p = trim_solid block.file_path p.path_solid

found_path :
    (block : ParsedBlock) (lead : Text)
    → IsPrintable block
    → last_filled (split_lines (lead ++ (block.file_path ++ 10 ∷ []))) ≡ block.file_path
    → extract_trailing_path (lead ++ (block.file_path ++ 10 ∷ [])) ≡ some block.file_path
unfolding extract_trailing_path
found_path block lead p e =
    rw (e, extract_trailing_path, p.path_filled, p.path_bare, p.path_accepted) refl

pub lead_path :
    (block : ParsedBlock) (lead : Text)
    → IsPrintable block
    → IsLead lead
    → extract_trailing_path (lead ++ (block.file_path ++ 10 ∷ [])) ≡ some block.file_path
unfolding last_filled
lead_path block lead p (inl e) =
    found_path block lead p
      (rw (e, split_solid block.file_path [] p.path_solid) (line_path block p))
lead_path block lead p (inr e) = found_path block lead p (
    rw
      (
        e,
        split_solid block.file_path [] p.path_solid,
        last_filled,
        line_path block p,
        p.path_filled,
      )
      refl)
