-- ===== src/Diff/Script.antt =====
-- fallbackEditScript: the lines between the common start and the common end are removed and added.
use parrot_coder.Base.{
  ℕ, suc, ◌+◌, ◌-◌, List, [], ◌∷◌, ◌++◌, Text, text_eq, if◌then◌else◌, length, take, drop, reverse,
}

-- The byte ' ', '-' or '+'.
pub data EditKind : Type 0 where
  same removed added : EditKind

pub record Edit : Type 0 where
  pub kind : EditKind
  pub text : Text
  pub old_line : ℕ
  pub new_line : ℕ

-- The number of lines that two texts start with in common.
unfoldable pub common_prefix : List Text → List Text → ℕ
common_prefix [] bs = 0
common_prefix (a ∷ as') [] = 0
common_prefix (a ∷ as') (b ∷ bs) =
    let rest = common_prefix as' bs in if text_eq a b then suc rest else 0

-- The number of lines that two texts end with in common.
unfoldable pub common_suffix : List Text → List Text → ℕ
common_suffix as' bs = common_prefix (reverse as') (reverse bs)

-- The loops that append edits, from the numbers of the first line.
unfoldable pub keep : ℕ → ℕ → List Text → List Edit
keep old new [] = []
keep old new (t ∷ ts) =
    record { kind = same; text = t; old_line = old; new_line = new } ∷ keep (suc old) (suc new) ts

unfoldable pub removals : ℕ → ℕ → List Text → List Edit
removals old new [] = []
removals old new (t ∷ ts) =
    record { kind = removed; text = t; old_line = old; new_line = new } ∷ removals (suc old) new ts

unfoldable pub additions : ℕ → ℕ → List Text → List Edit
additions old new [] = []
additions old new (t ∷ ts) =
    record { kind = added; text = t; old_line = old; new_line = new } ∷ additions old (suc new) ts

-- The script for `prefix` common lines at the start, and the rest of both texts.
unfoldable pub script_after : ℕ → List Text → List Text → List Text → List Edit
script_after prefix start old new =
    let suffix = common_suffix old new in
    let old_middle = length old - suffix in
    let new_middle = length new - suffix in
    keep 1 1 start
    ++ (removals (prefix + 1) (prefix + 1) (take old_middle old)
        ++ (additions (prefix + old_middle + 1) (prefix + 1) (take new_middle new)
            ++ keep (prefix + old_middle + 1) (prefix + new_middle + 1) (drop old_middle old)))

unfoldable pub fallback_edit_script : List Text → List Text → List Edit
fallback_edit_script old new =
    let prefix = common_prefix old new in
    script_after prefix (take prefix old) (drop prefix old) (drop prefix new)
