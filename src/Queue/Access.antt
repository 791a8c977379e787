-- ===== src/Queue/Access.antt =====
-- What a locked read and write do on a directory where nothing fails.
use parrot_coder.Base.{
  ℕ, ◌≤◌, ◌≡◌, refl, true, false, List, [], ◌∷◌, map, Option, none, some, Text, lookup, insert,
  remove, lookup-insert, lookup-remove, arith,
}
use parrot_coder.Queue.Names.{file_name, lock_name}
use parrot_coder.Queue.Keys.{lock_ne_file}
use parrot_coder.Queue.File.{
  Metadata, item_line, File, Error, ok, decode, decode_items, decode_lines, encode, total,
  max_bytes, meta_line,
}
use parrot_coder.Queue.Disk.{
  Node, file, folder, Disk, Host, M, read, write, locked, lock_from, release,
}

decode_items-map : (items : List Text) → decode_items (map item_line items) ≡ ok items
unfolding decode_items
decode_items-map [] = refl
decode_items-map (item ∷ items) = ground (arith, decode_items-map items)

abbrev pub encoded_bytes : Host → Metadata → List Text → ℕ
encoded_bytes h meta items = total h.width (meta_line meta ∷ map item_line items)

decode_lines-map :
    (meta : Metadata) (items : List Text)
    → decode_lines true (meta_line meta ∷ map item_line items) ≡ ok (meta, items)
unfolding decode_lines
decode_lines-map meta [] = refl
decode_lines-map meta (item ∷ items) = ground (arith, decode_items-map items)

-- A file that `encode` makes and that is within the limit decodes to what was encoded.
pub decode-encode :
    (h : Host) (meta : Metadata) (items : List Text)
    → encoded_bytes h meta items ≤ max_bytes
    → decode (encode h.width meta items) ≡ ok (meta, items)
unfolding decode encode
decode-encode h meta items fits = ground (arith, decode_lines-map meta items)

-- The file of the queue `name`.
abbrev pub node_of : Disk → Text → Option Node
node_of d name = lookup (file_name name) d.nodes

-- The directory exists, the queue's lock is free, and no call of the operating system fails.
pub record IsReady (h : Host) (d : Disk) (name : Text) : Type 0 where
  pub present : d.present ≡ true
  pub unlocked : lookup (lock_name name) d.nodes ≡ none
  pub can_lock : h.mkdir_fails (lock_name name) ≡ false
  pub can_unlock : h.unlock_fails (lock_name name) ≡ false
  pub can_open : h.open_fails (file_name name) ≡ false
  pub can_write : (f : File) → h.write_fails (file_name name) f ≡ false

-- The queue `name` holds `items` under `meta`.
pub record Holds (d : Disk) (name : Text) (meta : Metadata) (items : List Text) : Type 0 where
  pub stored : File
  pub found : node_of d name ≡ some (file stored)
  pub decodes : decode stored ≡ ok (meta, items)
  pub named : meta.name ≡ name

abbrev pub with_lock_dir : Text → Disk → Disk
with_lock_dir name d = record d { nodes = insert (lock_name name) folder d.nodes }

abbrev pub without_lock_dir : Text → Disk → Disk
without_lock_dir name d = record d { nodes = remove (lock_name name) d.nodes }

lock_from-IsReady :
    (h : Host) (late : Error) (name : Text) (polls : List Disk) (d : Disk)
    → IsReady h d name
    → lock_from h late name polls d ≡ (ok true, with_lock_dir name d)
unfolding lock_from
lock_from-IsReady h late name [] d r = ground (arith, r.present, r.unlocked, r.can_lock)
lock_from-IsReady h late name (next ∷ rest) d r = ground (arith, r.present, r.unlocked, r.can_lock)

-- A free lock is taken at once, and given back after the body.
pub locked_lem :
    (h : Host) (d : Disk) (name : Text) {A : Type 0} (late : Error) (body : M A)
    → IsReady h d name
    → locked h late name body d
      ≡ ((body (with_lock_dir name d)).0, without_lock_dir name (body (with_lock_dir name d)).1)
unfolding locked
locked_lem h d name late body r =
    rw (lock_from-IsReady h late name (h.later d) d r, release, r.can_unlock) refl

pub read_lem :
    (h : Host) (d : Disk) (name : Text) (f : File)
    → h.open_fails (file_name name) ≡ false
    → node_of d name ≡ some (file f)
    → read h name d ≡ (decode f, d)
unfolding read
read_lem h d name f c e = ground arith

pub write_lem :
    (h : Host) (d : Disk) (name : Text) (meta : Metadata) (items : List Text) (f : File)
    → d.present ≡ true
    → h.write_fails (file_name name) (encode h.width meta items) ≡ false
    → node_of d name ≡ some (file f)
    → write h name meta items d ≡ (
      ok tt,
      record d { nodes = insert (file_name name) (file (encode h.width meta items)) d.nodes },
    )
unfolding write
write_lem h d name meta items f p c e = ground arith

-- Taking and giving back the lock leaves every queue's file.
pub node_of-with_lock_dir :
    (d : Disk) (name j : Text) → node_of (with_lock_dir name d) j ≡ node_of d j
node_of-with_lock_dir d name j =
    rw (lookup-insert (lock_name name) (file_name j) folder d.nodes, lock_ne_file name j)

pub node_of-without_lock_dir :
    (d : Disk) (name j : Text) → node_of (without_lock_dir name d) j ≡ node_of d j
node_of-without_lock_dir d name j =
    rw (lookup-remove (lock_name name) (file_name j) d.nodes, lock_ne_file name j)
