-- ===== src/Queue/Disk.antt =====
-- The queue directory: files and lock directories, reads, atomic writes, and the file lock.
use parrot_coder.Base.{
  ℕ, Bool, true, false, not, List, [], ◌∷◌, Option, none, some, Text, Assoc, lookup, insert, remove,
  if◌then◌else◌,
}
use parrot_coder.Queue.Names.{file_name, lock_name}
use parrot_coder.Queue.File.{
  Metadata, Line, File, Error, Result, ok, err, decode, encode, not_found, lock_failed, open_failed,
  persist, read_metadata,
}

pub data Node : Type 0 where
  file : File → Node
  folder : Node

-- `present` says whether the directory itself exists.
pub record Disk : Type 0 where
  pub present : Bool
  pub nodes : Assoc Node

-- What the operating system and other processes decide. `later` gives the directory as each later
-- attempt to lock finds it, up to the deadline.
pub record Host : Type 0 where
  pub width : Line → ℕ
  pub later : Disk → List Disk
  pub mkdir_fails : Text → Bool
  pub unlock_fails : Text → Bool
  pub open_fails : Text → Bool
  pub write_fails : Text → File → Bool
  pub readdir_fails : Bool
  pub fresh_id : Option Text

-- A method may change the directory and fail; what it wrote before a failure stays written.
abbrev pub M : Type 0 → Type 0
M A = Disk → Result A × Disk

abbrev pub continue : {A B : Type 0} → Result A → (A → M B) → M B
continue (ok a) f d = f a d
continue (err e) f d = (err e, d)

infixl 5 ◌>>=◌ ◌>>◌
abbrev pub ◌>>=◌ : {A B : Type 0} → M A → (A → M B) → M B
◌>>=◌ m f d = let (r, d') = m d in continue r f d'

abbrev pub ◌>>◌ : {A B : Type 0} → M A → M B → M B
m >> k = m >>= λ _. k

abbrev pub pure : {A : Type 0} → A → M A
pure a d = (ok a, d)

abbrev pub raise : {A : Type 0} → Error → M A
raise e d = (err e, d)

abbrev pub guard : Bool → Error → M (Unit {0})
guard true e d = (ok tt, d)
guard false e d = (err e, d)

-- atomicfile.Write: the rename replaces a file whole, and not a directory.
write_node : Text → File → Option Node → M (Unit {0})
write_node name f (some folder) d = (err persist, d)
write_node name f target d = (ok tt, record d { nodes = insert (file_name name) (file f) d.nodes })

pub data Attempt : Type 0 where
  acquired : Bool → Disk → Attempt
  busy failed : Attempt

unfoldable pub make_lock : Text → Disk → Option Node → Attempt
make_lock name d (some _) = busy
make_lock name d none = acquired true (record d { nodes = insert (lock_name name) folder d.nodes })

abbrev pub settle : Attempt → Disk → Result Bool × Disk → Result Bool × Disk
settle (acquired made d') d otherwise = (ok made, d')
settle failed d otherwise = (err lock_failed, d)
settle busy d otherwise = otherwise

module _ (h : Host) where
  -- The function that tryLock returns: os.Remove of the lock directory, whose error is dropped.
  unfoldable pub release : Text → Bool → Disk → Disk
  release name true d =
      if h.unlock_fails (lock_name name)
      then d
      else record d { nodes = remove (lock_name name) d.nodes }
  release name false d = d

  read_node : Text → Option Node → Result (Metadata × List Text)
  read_node name none = err not_found
  read_node name (some folder) = err read_metadata
  read_node name (some (file f)) =
      if h.open_fails (file_name name) then err open_failed else decode f

  unfoldable pub read : Text → M (Metadata × List Text)
  unfolding read_node
  read name d = (read_node name (lookup (file_name name) d.nodes), d)

  unfoldable pub write : Text → Metadata → List Text → M (Unit {0})
  unfolding write_node
  write name meta items d =
      let f = encode h.width meta items in
      if not d.present
      then (err persist, d)
      else if h.write_fails (file_name name) f
      then (err persist, d)
      else write_node name f (lookup (file_name name) d.nodes) d

  -- tryLock: Mkdir of the lock directory. The Boolean says whether release removes anything.
  unfoldable pub try_lock : Text → Disk → Attempt
  unfolding make_lock
  try_lock name d =
      if not d.present
      then acquired false d
      else if h.mkdir_fails (lock_name name)
      then failed
      else make_lock name d (lookup (lock_name name) d.nodes)

  -- lockContext: attempts until one succeeds or the deadline `late` passes.
  unfoldable pub lock_from : Error → Text → List Disk → M Bool
  unfolding try_lock
  lock_from late name [] d = settle (try_lock name d) d (err late, d)
  lock_from late name (next ∷ rest) d =
      let again = lock_from late name rest next in settle (try_lock name d) d again

  abbrev pub with_lock : {A : Type 0} → Text → M A → Result Bool → M A
  with_lock name body (err e) d = (err e, d)
  with_lock name body (ok made) d = let (r, d') = body d in (r, release name made d')

  -- lock, then the body, then the deferred release.
  unfoldable pub locked : {A : Type 0} → Error → Text → M A → M A
  unfolding lock_from release
  locked late name body d =
      let (r, d') = lock_from late name (h.later d) d in with_lock name body r d'
