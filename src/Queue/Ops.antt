-- ===== src/Queue/Ops.antt =====
-- The methods of Store on one queue: Create, Push, Take, Monitor and Get.
use mathlib.Core.List.{reverse}
use parrot_coder.Base.{
  ℕ, zero, suc, ◌-◌, min, Bool, true, false, not, List, [], ◌∷◌, ◌++◌, ◌||◌, Option, none, some,
  Text, ℤ, pos, negsuc, lookup, insert, text_eq, if◌then◌else◌, length, take, drop,
}
use parrot_coder.Queue.Names.{valid_name, file_name}
use parrot_coder.Queue.File.{
  Metadata, Info, info, File, Result, ok, err, encode, already_exists, invalid_name,
  invalid_direction, invalid_count, empty, lock_timeout, cancelled, name_mismatch, create_failed,
  lock_failed,
}
use parrot_coder.Queue.Disk.{
  Node, file, Host, M, ◌>>=◌, ◌>>◌, pure, raise, guard, read, write, locked, Attempt, acquired,
  busy, failed, try_lock, release,
}

-- A Direction is a string: "", "front", "back" or another.
pub data Direction : Type 0 where
  unset front back : Direction
  other : Text → Direction

unfoldable pub push_front : List Text → Metadata × List Text → Metadata × List Text
push_front [] (meta, items) = (meta, items)
push_front (p ∷ ps) (meta, items) = (record meta { delivery_id = [] }, reverse (p ∷ ps) ++ items)

unfoldable pub push_items : Direction → List Text → Metadata × List Text → Metadata × List Text
unfolding push_front
push_items front pushed q = push_front pushed q
push_items _ pushed (meta, items) = (meta, items ++ pushed)

unfoldable pub push_direction : Direction → Result Direction
push_direction unset = ok back
push_direction front = ok front
push_direction back = ok back
push_direction (other _) = err invalid_direction

unfoldable pub validate_take : ℤ → Direction → Result (ℕ × Direction)
validate_take (negsuc _) _ = err invalid_count
validate_take (pos zero) _ = err invalid_count
validate_take (pos (suc n)) unset = ok (suc n, front)
validate_take (pos (suc n)) front = ok (suc n, front)
validate_take (pos (suc n)) back = ok (suc n, back)
validate_take (pos (suc n)) (other _) = err invalid_direction

-- What is taken, and what is left with its metadata.
abbrev pub Taken : Type 0
Taken = List Text × Metadata × List Text

abbrev pub clear_if_empty : List Text → Metadata → Metadata
clear_if_empty [] meta = record meta { delivery_id = [] }
clear_if_empty (_ ∷ _) meta = meta

unfoldable pub take_items : Direction → ℕ → Metadata × List Text → Taken
take_items back count (meta, items) =
    let n = min count (length items) in
    let left = take (length items - n) items in
    (take n (reverse items), clear_if_empty left meta, left)
take_items _ count (meta, items) =
    let n = min count (length items) in
    (take n items, record meta { delivery_id = [] }, drop n items)

abbrev pub is_empty : List Text → Bool
is_empty [] = true
is_empty (_ ∷ _) = false

-- lockMutex: `free` tells at each poll before the deadline whether the mutex is free.
unfoldable pub lock_mutex : List Bool → Bool
lock_mutex [] = false
lock_mutex (now ∷ polls) = now || lock_mutex polls

abbrev pub from_result : {A : Type 0} → Result A → M A
from_result r d = (r, d)

module _ (h : Host) where
  unfoldable pub read_named : Text → M (Metadata × List Text)
  read_named name = do
    (meta, items) ← read h name
    guard (text_eq meta.name name) name_mismatch
    pure (meta, items)

  create_node : Text → File → Option Node → M (Unit {0})
  create_node name f (some _) d = (err already_exists, d)
  create_node name f none d = (ok tt, record d { nodes = insert (file_name name) (file f) d.nodes })

  -- `create`: a staged file is linked, and link refuses a name that is taken.
  unfoldable pub link : Text → File → M (Unit {0})
  unfolding create_node
  link name f d =
      if not d.present
      then (err create_failed, d)
      else if h.write_fails (file_name name) f
      then (err create_failed, d)
      else create_node name f (lookup (file_name name) d.nodes) d

  unfoldable pub create : Text → Text → M Info
  unfolding link
  create name description =
      let meta : Metadata = record {
        name = name;
        description = description;
        monitored = false;
        delivery_id = [];
      } in
      do
        guard (valid_name name) invalid_name
        link name (encode h.width meta [])
        pure (info name meta 0)

  unfoldable pub push_locked : Text → Direction → List Text → M Info
  push_locked name direction pushed = do
    q ← read_named name
    let (meta, items) = push_items direction pushed q
    write h name meta items
    pure (info name meta (length items))

  unfoldable pub push : Text → List Text → Direction → M Info
  unfolding push_direction
  push name pushed direction = do
    d ← from_result (push_direction direction)
    guard (valid_name name) invalid_name
    locked h lock_timeout name (push_locked name d pushed)

  unfoldable pub store_taken : Text → Taken → M (List Text × Info)
  store_taken name (taken, meta, items) = do
    write h name meta items
    pure (taken, info name meta (length items))

  unfoldable pub take_locked : Text → ℕ → Direction → M (List Text × Info)
  take_locked name count direction = do
    q ← read_named name
    let (meta, items) = q
    if is_empty items
        then raise (empty (info name meta 0))
        else store_taken name (take_items direction count q)

  -- TakeContext. `expired` says whether the context has ended when the file lock is first tried.
  unfoldable pub take_context : List Bool → Bool → Text → ℤ → Direction → M (List Text × Info)
  take_context free expired name count direction = do
    (n, d) ← from_result (validate_take count direction)
    guard (lock_mutex free) cancelled
    guard (valid_name name) invalid_name
    guard (not expired) cancelled
    locked h cancelled name (take_locked name n d)

  -- TryTake: `none` says that a lock is held, and nothing is taken.
  unfoldable pub try_locked : Text → ℕ → Direction → Attempt → M (Option (List Text × Info))
  try_locked name count direction busy d = (ok none, d)
  try_locked name count direction failed d = (err lock_failed, d)
  try_locked name count direction (acquired made d') d =
      let (r, d'') = (do t ← take_locked name count direction; pure (some t)) d' in
      (r, release h name made d'')

  unfoldable pub try_take : Bool → Text → ℤ → Direction → M (Option (List Text × Info))
  try_take free name count direction = do
    (n, d) ← from_result (validate_take count direction)
    if not free then pure none else do
      guard (valid_name name) invalid_name
      λ disk. try_locked name n d (try_lock h name disk) disk

  unfoldable pub monitor_locked : Text → Bool → M Info
  monitor_locked name enabled = do
    (meta, items) ← read_named name
    let meta' = record meta { monitored = enabled }
    write h name meta' items
    pure (info name meta' (length items))

  unfoldable pub monitor : Text → Bool → M Info
  monitor name enabled = do
    guard (valid_name name) invalid_name
    locked h lock_timeout name (monitor_locked name enabled)

  unfoldable pub get : Text → M Info
  get name = do
    guard (valid_name name) invalid_name
    (meta, items) ← read_named name
    pure (info name meta (length items))
