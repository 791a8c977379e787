-- ===== src/Queue/Limits.antt =====
-- Push and the size limit that reads enforce.
use parrot_coder.Base.{◌<◌, ◌≡◌, refl, true, false, List, Text, arith, length}
use parrot_coder.Queue.Names.{valid_name, file_name}
use parrot_coder.Queue.File.{Metadata, info, ok, err, too_large, max_bytes, encode, decode}
use parrot_coder.Queue.Disk.{Disk, Host}
use parrot_coder.Queue.Ops.{Direction, push, push_items, push_direction, get, read_named}
use parrot_coder.Queue.Access.{IsReady, Holds, encoded_bytes, read_lem}
use parrot_coder.Queue.Stored.{stored, node_of-stored}
use parrot_coder.Queue.Contract.{push_stored}

decode-too_large :
    (h : Host) (meta : Metadata) (items : List Text)
    → max_bytes < encoded_bytes h meta items
    → decode (encode h.width meta items) ≡ err too_large
unfolding decode encode
decode-too_large h meta items big = ground arith

get-stored-too_large :
    (h : Host) (d : Disk) (name : Text) (meta : Metadata) (items : List Text)
    → h.open_fails (file_name name) ≡ false
    → valid_name name ≡ true
    → max_bytes < encoded_bytes h meta items
    → (get h name (stored h name meta items d)).0 ≡ err too_large
unfolding get read_named
get-stored-too_large h d name meta items can_open v big = rw (
  v,
  read_lem h (stored h name meta items d) name (encode h.width meta items) can_open
      (node_of-stored h d name meta items),
  decode-too_large h meta items big,
)

module _ (h : Host) (d : Disk) (name : Text) (meta : Metadata) (items : List Text) where
  -- A push that makes the file exceed the size limit reports success, in a directory where nothing
  -- fails, and leaves a queue that can no longer be read.
  pub push_past_limit :
      (end direction : Direction) (pushed : List Text)
      → push_direction direction ≡ ok end
      → valid_name name ≡ true
      → IsReady h d name
      → Holds d name meta items
      → max_bytes
        < encoded_bytes h
            (push_items end pushed (meta, items)).0
            (push_items end pushed (meta, items)).1
      → (let q = push_items end pushed (meta, items) in
          let after = push h name pushed direction d in
          (after.0 ≡ ok (info name q.0 (length q.1))) × ((get h name after.1).0 ≡ err too_large))
  push_past_limit end direction pushed e v r q big =
      rw (push_stored h d name meta items end direction pushed e v r q) (
        refl,
        get-stored-too_large h d name (push_items end pushed (meta, items)).0
            (push_items end pushed (meta, items)).1 r.can_open v big,
      )
