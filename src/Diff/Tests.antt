-- ===== src/Diff/Tests.antt =====
-- A line that is replaced by two.
use parrot_coder.Base.{◌≡◌, refl, List, [], ◌∷◌, Text, codes, text_eq}
use parrot_coder.Diff.Script.{
  Edit, same, removed, added, common_prefix, common_suffix, keep, removals, additions, script_after,
  fallback_edit_script,
}
use parrot_coder.Diff.Sides.{Edits, fallback_edit_script-Edits}

abbrev before : List Text
before = codes "a" ∷ codes "b" ∷ codes "c" ∷ []

abbrev after : List Text
after = codes "a" ∷ codes "x" ∷ codes "y" ∷ codes "c" ∷ []

abbrev script : List Edit
script =
    record { kind = same; text = codes "a"; old_line = 1; new_line = 1 }
    ∷ record { kind = removed; text = codes "b"; old_line = 2; new_line = 2 }
    ∷ record { kind = added; text = codes "x"; old_line = 3; new_line = 2 }
    ∷ record { kind = added; text = codes "y"; old_line = 3; new_line = 3 }
    ∷ record { kind = same; text = codes "c"; old_line = 3; new_line = 4 }
    ∷ []

replaced : fallback_edit_script before after ≡ script
unfolding fallback_edit_script script_after common_prefix common_suffix keep removals additions
    text_eq
replaced = refl

fallback_edit_script-Edits_example : Edits before after (fallback_edit_script before after)
fallback_edit_script-Edits_example = fallback_edit_script-Edits before after
