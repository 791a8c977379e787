-- ===== src/Base/Strings.antt =====
-- Functions of Go's strings and path/filepath packages, on sequences of bytes.
use Prim.Native.Nat.{ℕ}
use mathlib.Core.Bool.{Bool, true, false, ◌&&◌, ◌||◌}
use mathlib.Core.List.{List, [], ◌∷◌, ◌++◌, reverse}
use parrot_coder.Base.Tests.{◌==◌, if◌then◌else◌}
use parrot_coder.Base.Lists.{is_empty}
use parrot_coder.Base.Texts.{Text, text_eq}

-- The text with "\r\n" and "\r" as "\n".
unfoldable pub with_newlines : Text → Text
with_newlines [] = []
with_newlines (a ∷ []) = (if a == 13 then 10 else a) ∷ []
with_newlines (a ∷ b ∷ s) =
    let rest = with_newlines (b ∷ s) in
    if a == 13 then if b == 10 then rest else 10 ∷ rest else a ∷ rest

-- strings.HasPrefix.
unfoldable pub has_prefix : Text → Text → Bool
has_prefix s [] = true
has_prefix [] (p ∷ ps) = false
has_prefix (c ∷ s) (p ∷ ps) = (c == p) && has_prefix s ps

-- A byte in front of the first part.
abbrev pub onto_first : ℕ → List Text → List Text
onto_first c [] = (c ∷ []) ∷ []
onto_first c (t ∷ ts) = (c ∷ t) ∷ ts

-- strings.Split by one byte; there is one part at least.
unfoldable pub split_on : ℕ → Text → List Text
split_on sep [] = [] ∷ []
split_on sep (c ∷ s) =
    let rest = split_on sep s in if c == sep then [] ∷ rest else onto_first c rest

-- strings.Join by one byte.
unfoldable pub join_on : ℕ → List Text → Text
join_on sep [] = []
join_on sep (t ∷ []) = t
join_on sep (t ∷ u ∷ ts) = t ++ (sep ∷ join_on sep (u ∷ ts))

-- ".."
abbrev pub dot_dot : Text
dot_dot = 46 ∷ 46 ∷ []

-- ".." goes back over the last element, stays at the root, and is kept at the start of a relative path.
abbrev pub back_up : Bool → List Text → List Text
back_up true [] = []
back_up false [] = dot_dot ∷ []
back_up rooted (t ∷ ts) = if text_eq t dot_dot then dot_dot ∷ t ∷ ts else ts

-- One element of a path, onto those before it from the last to the first.
abbrev pub clean_element : Bool → Text → List Text → List Text
clean_element rooted t out =
    if is_empty t || text_eq t (46 ∷ [])
    then out
    else if text_eq t dot_dot
    then back_up rooted out
    else t ∷ out

unfoldable pub clean_elements : Bool → List Text → List Text → List Text
clean_elements rooted [] out = out
clean_elements rooted (t ∷ ts) out = clean_elements rooted ts (clean_element rooted t out)

-- The result, "." if it is empty.
abbrev pub cleaned : Bool → List Text → Text
cleaned true out = 47 ∷ join_on 47 (reverse out)
cleaned false [] = 46 ∷ []
cleaned false (t ∷ ts) = join_on 47 (reverse (t ∷ ts))

-- filepath.Clean where the separator is '/'.
unfoldable pub clean_path : Text → Text
unfolding has_prefix split_on clean_elements join_on
clean_path path =
    let rooted = has_prefix path (47 ∷ []) in
    cleaned rooted (clean_elements rooted (split_on 47 path) [])
