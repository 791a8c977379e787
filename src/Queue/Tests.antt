-- ===== src/Queue/Tests.antt =====
-- Runs of the queue operations on small directories.
use parrot_coder.Base.{
  ℕ, ◌≡◌, refl, true, false, List, [], ◌∷◌, some, Text, codes, length, pos, lookup, insert, remove,
  text_eq,
}
use parrot_coder.Queue.Names.{valid_name}
use parrot_coder.Queue.File.{
  decode, encode, Line, meta_line, item_line, other_line, Result, ok, err, Info,
}
use parrot_coder.Queue.Disk.{Disk, Host, M, read, write, locked, ◌>>◌}
use parrot_coder.Queue.Ops.{
  unset, front, create, push, push_locked, push_items, take_context, take_locked, take_items,
  store_taken, read_named, validate_take, lock_mutex,
}

abbrev pub width : Line → ℕ
width (meta_line m) = 1
width (item_line s) = length s
width other_line = 0

abbrev pub host : Host
host = record {
  width = width;
  later = λ d. [];
  mkdir_fails = λ p. false;
  unlock_fails = λ p. false;
  open_fails = λ p. false;
  write_fails = λ p f. false;
  readdir_fails = false;
  fresh_id = some (codes "qnt_1");
}

abbrev pub empty_disk : Disk
empty_disk = record { present = true; nodes = [] }

abbrev session : M (List Text × Info)
session = do
  create host (codes "jobs") (codes "work")
  push host (codes "jobs") (codes "a" ∷ codes "b" ∷ []) unset
  push host (codes "jobs") (codes "c" ∷ codes "d" ∷ []) front
  take_context host (true ∷ []) false (codes "jobs") (pos 3) unset

abbrev texts : Result (List Text × Info) → List Text
texts (ok r) = r.0
texts (err e) = []

session_runs : texts (session empty_disk).0 ≡ codes "d" ∷ codes "c" ∷ codes "a" ∷ []
unfolding create push push_locked push_items take_context take_locked take_items store_taken
    read_named read write locked validate_take lock_mutex valid_name encode lookup insert remove
    text_eq decode
session_runs = refl
