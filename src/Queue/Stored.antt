-- ===== src/Queue/Stored.antt =====
-- The directory after a locked read-modify-write.
use parrot_coder.Base.{
  ◌≤◌, ◌≡◌, ◌≢◌, ◌∙◌, List, some, Text, insert, lookup-insert, lookup-remove, text_eq_refl,
}
use parrot_coder.Queue.Names.{file_name, lock_name}
use parrot_coder.Queue.Keys.{file_ne_file}
use parrot_coder.Queue.File.{Metadata, ok, encode, max_bytes}
use parrot_coder.Queue.Disk.{file, Disk, Host, write}
use parrot_coder.Queue.Ops.{read_named}
use parrot_coder.Queue.Access.{
  IsReady, Holds, node_of, encoded_bytes, with_lock_dir, without_lock_dir, decode-encode, read_lem,
  write_lem, node_of-with_lock_dir, node_of-without_lock_dir,
}

abbrev pub written : Host → Text → Metadata → List Text → Disk → Disk
written h name meta items d = record d {
  nodes = insert (file_name name) (file (encode h.width meta items)) d.nodes;
}

-- Locked, written and unlocked.
abbrev pub stored : Host → Text → Metadata → List Text → Disk → Disk
stored h name meta items d =
    without_lock_dir name (written h name meta items (with_lock_dir name d))

module _ (h : Host) (d : Disk) (name : Text) (meta : Metadata) (items : List Text) where
  pub read_named-locked :
      IsReady h d name
      → Holds d name meta items
      → read_named h name (with_lock_dir name d) ≡ (ok (meta, items), with_lock_dir name d)
  unfolding read_named
  read_named-locked r q = rw (
    read_lem h (with_lock_dir name d) name q.stored r.can_open
        (node_of-with_lock_dir d name name ∙ q.found),
    q.decodes,
    q.named,
    text_eq_refl name,
  )

  pub write-locked :
      (meta' : Metadata) (items' : List Text)
      → IsReady h d name
      → Holds d name meta items
      → write h name meta' items' (with_lock_dir name d)
        ≡ (ok tt, written h name meta' items' (with_lock_dir name d))
  write-locked meta' items' r q =
      write_lem h (with_lock_dir name d) name meta' items' q.stored r.present (r.can_write _)
        (node_of-with_lock_dir d name name ∙ q.found)

  pub node_of-stored :
      node_of (stored h name meta items d) name ≡ some (file (encode h.width meta items))
  node_of-stored = rw (
    node_of-without_lock_dir (written h name meta items (with_lock_dir name d)) name name,
    lookup-insert (file_name name) (file_name name) (file (encode h.width meta items))
        (with_lock_dir name d).nodes,
    text_eq_refl (file_name name),
  )

  pub stored-Holds :
      encoded_bytes h meta items ≤ max_bytes
      → meta.name ≡ name
      → Holds (stored h name meta items d) name meta items
  stored-Holds fits named = record {
    stored = encode h.width meta items;
    found = node_of-stored;
    decodes = decode-encode h meta items fits;
    named = named;
  }

  pub stored-frame : (j : Text) → name ≢ j → node_of (stored h name meta items d) j ≡ node_of d j
  stored-frame j n = rw (
    node_of-without_lock_dir (written h name meta items (with_lock_dir name d)) name j,
    lookup-insert (file_name name) (file_name j) (file (encode h.width meta items))
        (with_lock_dir name d).nodes,
    file_ne_file name j n,
    node_of-with_lock_dir d name j,
  )

  pub stored-IsReady : IsReady h d name → IsReady h (stored h name meta items d) name
  stored-IsReady r = record {
    present = r.present;
    unlocked = rw (
      lookup-remove (lock_name name) (lock_name name)
          (written h name meta items (with_lock_dir name d)).nodes,
      text_eq_refl (lock_name name),
    );
    can_lock = r.can_lock;
    can_unlock = r.can_unlock;
    can_open = r.can_open;
    can_write = r.can_write;
  }
