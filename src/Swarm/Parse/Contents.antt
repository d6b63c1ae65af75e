-- ===== src/Swarm/Parse/Contents.antt =====
-- src/swarm/search-replace.ts: the two texts of a block between its markers.
use frontier_os.Prelude.{ℕ, ◌≡◌, ◌≢◌, refl, ap, true, inl, inr, some, [], ◌∷◌, ◌++◌, arith}
use frontier_os.Swarm.Search.{Text}
use frontier_os.Swarm.Parse.{close_line, strip_last_newline, content}
use frontier_os.Swarm.Parse.Markers.{quiet, opens, close_line-opens}
use frontier_os.Swarm.Parse.Printing.{IsContent}

strip_last_newline_lem : (s : Text) → strip_last_newline (s ++ 10 ∷ []) ≡ s
strip_last_newline_lem [] = refl
strip_last_newline_lem (c ∷ []) = refl
strip_last_newline_lem (c ∷ d ∷ s) = ap (λ s. c ∷ s) (strip_last_newline_lem (d ∷ s))

content_line : (s : Text) → content (10 ∷ (s ++ 10 ∷ [])) ≡ s
unfolding content
content_line [] = refl
content_line (c ∷ s) = strip_last_newline_lem (c ∷ s)

-- What is left of a content behind the marker in front of it.
abbrev pub front : Text → Text
front [] = []
front (c ∷ s) = 10 ∷ c ∷ s

abbrev pub back : Text → Text
back [] = []
back (c ∷ s) = 10 ∷ c ∷ s ++ 10 ∷ []

pub content-front : (s : Text) → content (front s ++ 10 ∷ []) ≡ s
unfolding content
content-front [] = refl
content-front (c ∷ s) = content_line (c ∷ s)

pub content-back : (s : Text) → content (back s) ≡ s
unfolding content
content-back [] = refl
content-back (c ∷ s) = content_line (c ∷ s)

pub quiet-front :
    (c : ℕ) (s : Text) → c ≢ 10 → quiet c true s ≡ true → quiet c true (front s) ≡ true
unfolding quiet
quiet-front c [] apart h = refl
quiet-front c (d ∷ s) apart h = ground (arith, h)

pub close-front :
    (s t : Text)
    → IsContent s
    → close_line (10 ∷ (s ++ 10 ∷ (61 ∷ t))) ≡ some (front s ++ 10 ∷ (61 ∷ t))
unfolding close_line opens
close-front [] t k = refl
close-front (c ∷ s) t (inl e) = absurd (ground arith)
close-front (c ∷ s) t (inr h) = rw (close_line-opens (c ∷ s) (10 ∷ (61 ∷ t)) h, close_line) refl

pub close-back : (s : Text) → IsContent s → close_line (10 ∷ (s ++ 10 ∷ [])) ≡ some (back s)
unfolding close_line opens
close-back [] k = refl
close-back (c ∷ s) (inl e) = absurd (ground arith)
close-back (c ∷ s) (inr h) = rw (close_line-opens (c ∷ s) (10 ∷ []) h, close_line) refl
