-- ===== src/Commands/Words.antt =====
-- The regular expressions of src/commands/store.ts that look for words in an intent. A word that
-- stands between word boundaries is a longest run of word characters.
use frontier_os.Prelude.{
  ℕ, String, Bool, true, false, not, ◌&&◌, ◌||◌, Option, none, some, List, [], ◌∷◌, leb, ◌==◌,
  if◌then◌else◌,
}
use frontier_os.Prelude.Text.{units}
use frontier_os.Swarm.Search.{Text, strip_prefix, includes}
use frontier_os.Arbiter.AntiExample.{is_space}
use frontier_os.Commands.Payload.{same_text}

-- `\w`
abbrev pub is_word : ℕ → Bool
is_word c =
    (leb b'a' c && leb c b'z')
    || (leb b'A' c && leb c b'Z')
    || (leb b'0' c && leb c b'9')
    || c == b'_'

-- The longest runs of word characters; the first is empty where the text starts with another.
abbrev pub runs : Text → List Text
runs [] = [] ∷ []
runs (c ∷ text) =
    let rest = runs text in
    if is_word c
    then elim rest [ [] ↦ (c ∷ []) ∷ [] | run ∷ more ↦ (c ∷ run) ∷ more ]
    else [] ∷ rest

abbrev pub one_of : List String → Text → Bool
one_of [] run = false
one_of (word ∷ words) run = same_text run (units word) || one_of words run

abbrev pub any_run : List String → List Text → Bool
any_run words [] = false
any_run words (run ∷ more) = one_of words run || any_run words more

-- `/\b(a|b|c)\b/.test(intent)`
unfoldable pub has_word : List String → Text → Bool
has_word words intent = any_run words (runs intent)

-- Behind a place, `\b` after a word character.
abbrev ends_word : Text → Bool
ends_word [] = true
ends_word (c ∷ text) = not (is_word c)

abbrev strips : Text → Text → Option Text
strips = strip_prefix

-- `\s*-rf\b`
abbrev flag_behind : Text → Bool
flag_behind [] = false
flag_behind (c ∷ text) =
    let rest = flag_behind text in
    if is_space c
    then rest
    else elim (strips (units "-rf") (c ∷ text)) [ none ↦ false | some after ↦ ends_word after ]

-- `rm\s+-rf\b`
abbrev remove_at : Text → Bool
remove_at text = elim (strips (units "rm") text) [
  | some (c ∷ after) ↦ is_space c && flag_behind after
  | _ ↦ false
]

-- `/\brm\s+-rf\b/.test(intent)`, behind a character.
abbrev remove_from : Bool → Text → Bool
remove_from in_word [] = false
remove_from in_word (c ∷ text) =
    let rest = remove_from (is_word c) text in (not in_word && remove_at (c ∷ text)) || rest

abbrev pub has_remove : Text → Bool
has_remove intent = remove_from false intent

unfoldable pub says : Text → String → Bool
says intent phrase = includes intent (units phrase)

unfoldable pub is_destructive_filesystem : Text → Bool
is_destructive_filesystem intent =
    (has_word ("delete" ∷ "remove" ∷ "erase" ∷ "wipe" ∷ "trash" ∷ "destroy" ∷ []) intent
      && has_word
          ("everything" ∷ "all" ∷ "recursive" ∷ "recursively" ∷ "downloads" ∷ "documents"
            ∷ "desktop" ∷ "home" ∷ "root" ∷ "system" ∷ "library" ∷ [])
          intent)
    || has_remove intent

unfoldable pub is_destructive_database : Text → Bool
is_destructive_database intent =
    has_word ("drop" ∷ "truncate" ∷ []) intent && has_word ("table" ∷ "database" ∷ "db" ∷ []) intent

unfoldable pub is_protected_restart : Text → Bool
is_protected_restart intent =
    has_word ("restart" ∷ "stop" ∷ "kill" ∷ "unload" ∷ "shutdown" ∷ []) intent
    && (says intent "com.apple."
        || says intent "windowserver"
        || says intent "systemuiserver"
        || says intent "loginwindow")
