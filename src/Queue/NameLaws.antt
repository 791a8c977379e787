-- ===== src/Queue/NameLaws.antt =====
-- Which names validName accepts, and in which order the directory lists the files of two queues.
use mathlib.Core.List.{append_assoc}
use parrot_coder.Base.{
  ℕ, ◌≡◌, ◌≢◌, refl, ap, ◌∙◌, sym, Bool, true, false, not, ◌&&◌, List, [], ◌∷◌, ◌++◌, Text, ◌==◌,
  all, All, arith, if◌then◌else◌, text_lt, Bool-cases, inl, inr, codes, map, some, sort_by,
}
use parrot_coder.Queue.Names.{
  valid_name, split, is_part, is_word_byte, file_name, extend_head, jsonl, cut_suffix-append,
}
use parrot_coder.Queue.File.{File}
use parrot_coder.Queue.Disk.{file, Disk}
use parrot_coder.Queue.Delivery.{read_dir, queue_entry}

-- The specification, in one pass: `start` says that a word must begin here.
unfoldable pub hyphenated : Bool → Text → Bool
hyphenated start [] = not start
hyphenated start (c ∷ s) =
    if c == b'-' then not start && hyphenated true s else is_word_byte c && hyphenated false s

-- The parts of a text that follow on bytes of a word already read.
abbrev all_parts : Bool → List Text → Bool
all_parts start [] = true
all_parts true (part ∷ parts) = is_part part && all is_part parts
all_parts false (part ∷ parts) = all is_word_byte part && all is_part parts

-- One more byte in front of the parts `r` of `s`.
step :
    (start : Bool) (c : ℕ) (s : Text) (r : List Text)
    → all_parts true r ≡ hyphenated true s
    → all_parts false r ≡ hyphenated false s
    → all_parts start (if c == b'-' then [] ∷ r else extend_head c r) ≡ hyphenated start (c ∷ s)
unfolding hyphenated
step true c s [] t f = ground arith
step true c s ([] ∷ parts) t f = ground arith
step true c s ((b ∷ part) ∷ parts) t f = ground arith
step false c s [] t f = ground arith
step false c s ([] ∷ parts) t f = ground arith
step false c s ((b ∷ part) ∷ parts) t f = ground arith

all_parts-split : (start : Bool) (s : Text) → all_parts start (split b'-' s) ≡ hyphenated start s
unfolding split hyphenated
all_parts-split true [] = refl
all_parts-split false [] = refl
all_parts-split start (c ∷ s) =
    step start c s (split b'-' s) (all_parts-split true s) (all_parts-split false s)

all_parts-true : (r : List Text) → all_parts true r ≡ all is_part r
all_parts-true [] = refl
all_parts-true (part ∷ parts) = refl

-- validName, which splits at hyphens, accepts just what the one-pass scanner accepts: words of a-z
-- and 0-9 with single hyphens between them, and at least one word.
pub valid_name-hyphenated : (name : Text) → valid_name name ≡ hyphenated true name
unfolding valid_name
valid_name-hyphenated name = sym (all_parts-true (split b'-' name)) ∙ all_parts-split true name

-- A byte that may stand in a queue name.
abbrev pub IsNameByte : ℕ → Type 0
IsNameByte c = (c ≢ b'/') × (c ≢ b'.') × (c ≢ 0)

hyphenated-IsNameByte : (start : Bool) (s : Text) → hyphenated start s ≡ true → All IsNameByte s
unfolding hyphenated
hyphenated-IsNameByte start [] h = tt
hyphenated-IsNameByte true (c ∷ s) h = (ground arith, hyphenated-IsNameByte false s (ground arith))
hyphenated-IsNameByte false (c ∷ s) h = elim (Bool-cases (c == b'-')) [
  | inl e ↦ (ground arith, hyphenated-IsNameByte true s (ground arith))
  | inr e ↦ (ground arith, hyphenated-IsNameByte false s (ground arith))
]

-- A valid name is not empty and holds no slash, no dot and no NUL, so that its file and its lock
-- are entries of the store's own directory.
pub valid_name-IsNameByte :
    (name : Text) → valid_name name ≡ true → (name ≢ []) × All IsNameByte name
valid_name-IsNameByte name v =
    let h = sym (valid_name-hyphenated name) ∙ v in
    ((λ e. cc (h, ap (hyphenated true) e, empty_invalid)), hyphenated-IsNameByte true name h)
  where
    empty_invalid : hyphenated true [] ≡ false
    empty_invalid = unfold hyphenated in refl

text_lt-prefix :
    (s : Text) (c b : ℕ) (t u : Text) → text_lt (s ++ c ∷ t) (s ++ b ∷ u) ≡ text_lt (c ∷ t) (b ∷ u)
unfolding text_lt
text_lt-prefix [] c b t u = refl
text_lt-prefix (a ∷ s) c b t u = ground (arith, text_lt-prefix s c b t u)

text_lt-extend : (s : Text) (c : ℕ) (t : Text) → text_lt s (s ++ c ∷ t) ≡ true
unfolding text_lt
text_lt-extend [] c t = refl
text_lt-extend (a ∷ s) c t = ground (arith, text_lt-extend s c t)

-- The directory is read in the order of file names, which is not that of queue names: a queue whose
-- name goes on after a hyphen comes before the queue that it extends.
pub file_order_reversed :
    (name more : Text)
    → (text_lt name (name ++ b'-' ∷ more) ≡ true)
      × (text_lt (file_name (name ++ b'-' ∷ more)) (file_name name) ≡ true)
unfolding text_lt
file_order_reversed name more = (
  text_lt-extend name b'-' more,
  ap (λ (l : Text). text_lt l (file_name name)) (append_assoc name (b'-' ∷ more) (codes ".jsonl"))
      ∙ text_lt-prefix name b'-' b'.' (more ++ codes ".jsonl") (codes "jsonl"),
)

-- In a directory of two such queues the scans of DeliverMonitored and List meet the longer name
-- first, although it comes second in the order of names.
pub scan_order_reversed :
    (present : Bool) (name more : Text) (x y : File)
    → (let longer = name ++ b'-' ∷ more in
        let d : Disk = record {
          present = present;
          nodes = (file_name name, file x) ∷ (file_name longer, file y) ∷ [];
        } in
        (map queue_entry (read_dir d) ≡ some longer ∷ some name ∷ [])
        × (text_lt name longer ≡ true))
unfolding read_dir sort_by queue_entry
scan_order_reversed present name more x y =
    let (below, above) = file_order_reversed name more in
    (rw (above, cut_suffix-append (name ++ b'-' ∷ more) jsonl, cut_suffix-append name jsonl), below)
