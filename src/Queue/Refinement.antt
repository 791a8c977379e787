-- ===== src/Queue/Refinement.antt =====
-- Push, Take and Monitor against a double-ended queue, in a directory where nothing fails.
use mathlib.Core.List.{foldl, reverse, reverse-cons, append_assoc}
use parrot_coder.Base.{
  ℕ, ◌≤◌, ◌≡◌, ◌≢◌, refl, sym, ap, ◌∙◌, Bool, false, List, [], ◌∷◌, ◌++◌, Text, length,
}
use parrot_coder.Queue.File.{Metadata, info, Result, ok, max_bytes}
use parrot_coder.Queue.Disk.{Disk, Host}
use parrot_coder.Queue.Ops.{
  Direction, unset, front, push_locked, push_items, take_items, take_locked, monitor_locked,
  store_taken, is_empty,
}
use parrot_coder.Queue.Access.{IsReady, Holds, node_of, encoded_bytes, with_lock_dir}
use parrot_coder.Queue.Stored.{
  stored, written, read_named-locked, write-locked, stored-Holds, stored-frame, stored-IsReady,
}

-- The specification: front insertion pushes one item after another to the front.
abbrev pub pushed_items : Direction → List Text → List Text → List Text
pushed_items front pushed items = foldl (λ acc p. p ∷ acc) items pushed
pushed_items _ pushed items = items ++ pushed

foldl-reverse :
    (pushed items : List Text) → foldl (λ acc p. p ∷ acc) items pushed ≡ reverse pushed ++ items
foldl-reverse [] items = refl
foldl-reverse (p ∷ ps) items =
    foldl-reverse ps (p ∷ items)
    ∙ sym (ap (λ r. r ++ items) (reverse-cons p ps) ∙ append_assoc (reverse ps) (p ∷ []) items)

pub push_items_lem :
    (direction : Direction) (pushed items : List Text) (meta : Metadata)
    → (push_items direction pushed (meta, items)).1 ≡ pushed_items direction pushed items
unfolding push_items
push_items_lem front [] items meta = refl
push_items_lem front (p ∷ ps) items meta = sym (foldl-reverse (p ∷ ps) items)
push_items_lem unset pushed items meta = refl
push_items_lem _ pushed items meta = refl

pub push_items-name :
    (direction : Direction) (pushed items : List Text) (meta : Metadata)
    → (push_items direction pushed (meta, items)).0.name ≡ meta.name
unfolding push_items
push_items-name front [] items meta = refl
push_items-name front (p ∷ ps) items meta = refl
push_items-name unset pushed items meta = refl
push_items-name _ pushed items meta = refl

-- A finished call: its result, what the queue holds, what stays, and the lock that is free again.
pub record Done {A : Type 0} (h : Host) (before : Disk) (name : Text) (r : Result A × Disk) (a : A)
    (meta : Metadata) (items : List Text) : Type 0 where
  pub result : r.0 ≡ ok a
  pub holds : Holds r.1 name meta items
  pub others : (j : Text) → name ≢ j → node_of r.1 j ≡ node_of before j
  pub ready : IsReady h r.1 name

pub stored-Done :
    {A : Type 0} (h : Host) (d : Disk) (name : Text) (r : Result A × Disk) (a : A) (meta : Metadata)
    (items : List Text)
    → r ≡ (ok a, stored h name meta items d)
    → IsReady h d name
    → encoded_bytes h meta items ≤ max_bytes
    → meta.name ≡ name
    → Done h d name r a meta items
stored-Done h d name r a meta items e ready fits named = rw e (record {
  result = refl;
  holds = stored-Holds h d name meta items fits named;
  others = stored-frame h d name meta items;
  ready = stored-IsReady h d name meta items ready;
})

not_empty : (items : List Text) → items ≢ [] → is_empty items ≡ false
not_empty [] n = absurd (n refl)
not_empty (_ ∷ _) n = refl

module _ (h : Host) (d : Disk) (name : Text) (meta : Metadata) (items : List Text) where
  pub push_locked_lem :
      (direction : Direction) (pushed : List Text)
      → IsReady h d name
      → Holds d name meta items
      → push_locked h name direction pushed (with_lock_dir name d) ≡ (
          let q = push_items direction pushed (meta, items) in
          (ok (info name q.0 (length q.1)), written h name q.0 q.1 (with_lock_dir name d)))
  unfolding push_locked
  push_locked_lem direction pushed r q = rw (
    read_named-locked h d name meta items r q,
    write-locked h d name meta items (push_items direction pushed (meta, items)).0
        (push_items direction pushed (meta, items)).1 r q,
  )

  pub take_locked_lem :
      (direction : Direction) (count : ℕ)
      → items ≢ []
      → IsReady h d name
      → Holds d name meta items
      → take_locked h name count direction (with_lock_dir name d) ≡ (
          let t = take_items direction count (meta, items) in
          (ok (t.0, info name t.1 (length t.2)), written h name t.1 t.2 (with_lock_dir name d)))
  unfolding take_locked store_taken
  take_locked_lem direction count some_items r q = rw (
    read_named-locked h d name meta items r q,
    not_empty items some_items,
    write-locked h d name meta items (take_items direction count (meta, items)).1
        (take_items direction count (meta, items)).2 r q,
  )

  pub monitor_locked_lem :
      (enabled : Bool)
      → IsReady h d name
      → Holds d name meta items
      → monitor_locked h name enabled (with_lock_dir name d) ≡ (
          let meta' = record meta { monitored = enabled } in
          (ok (info name meta' (length items)), written h name meta' items (with_lock_dir name d)))
  unfolding monitor_locked
  monitor_locked_lem enabled r q = rw (
    read_named-locked h d name meta items r q,
    write-locked h d name meta items (record meta { monitored = enabled }) items r q,
  )
