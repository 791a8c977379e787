-- ===== src/Queue/Witnesses.antt =====
-- The theorems on queues at a small directory.
use parrot_coder.Base.{
  ◌≡◌, refl, inl, true, false, List, [], ◌∷◌, Text, codes, arith, lookup, insert, text_eq, length,
  pos,
}
use parrot_coder.Queue.Names.{file_name, valid_name}
use parrot_coder.Queue.File.{
  Metadata, info, ok, err, encode, decode, too_large, max_bytes, lock_timeout, empty,
}
use parrot_coder.Queue.Disk.{Disk, Host, file, read, locked}
use parrot_coder.Queue.Ops.{
  unset, front, back, push, push_items, push_direction, take_items, take_context, validate_take,
  lock_mutex, get, take_locked, read_named,
}
use parrot_coder.Queue.Delivery.{declined, offer}
use parrot_coder.Queue.Access.{IsReady, Holds}
use parrot_coder.Queue.Refinement.{Done}
use parrot_coder.Queue.Contract.{push_refines, take_refines, Split}
use parrot_coder.Queue.Notify.{offer_lem, Offered}
use parrot_coder.Queue.Pinning.{pin_keeps_item, IsPinned, SamePin}
use parrot_coder.Queue.Limits.{push_past_limit}
use parrot_coder.Queue.Failures.{take_fails_atomically, SameQueues}
use parrot_coder.Queue.Tests.{host, width}

abbrev jobs : Text
jobs = codes "jobs"

abbrev a : Text
a = codes "a"

abbrev b : Text
b = codes "b"

abbrev meta : Metadata
meta = record { name = jobs; description = []; monitored = true; delivery_id = [] }

abbrev items : List Text
items = a ∷ b ∷ []

abbrev disk : Disk
disk = record { present = true; nodes = (file_name jobs, file (encode width meta items)) ∷ [] }

ready : IsReady host disk jobs
unfolding lookup text_eq
ready = record {
  present = refl;
  unlocked = refl;
  can_lock = refl;
  can_unlock = refl;
  can_open = refl;
  can_write = λ f. refl;
}

holds : Holds disk jobs meta items
unfolding lookup text_eq decode encode
holds = record { stored = encode width meta items; found = refl; decodes = refl; named = refl }

jobs_valid : valid_name jobs ≡ true
unfolding valid_name
jobs_valid = refl

push_refines_example :
    Done host disk jobs
      (push host jobs (a ∷ []) front disk)
      (info jobs meta 3)
      meta
      (a ∷ a ∷ b ∷ [])
unfolding push_items push_direction
push_refines_example =
    push_refines host disk jobs meta items front front (a ∷ []) refl jobs_valid ready holds
      (omega arith)

take_refines_example :
    (taken : List Text) × (left : List Text) × (meta' : Metadata) × Done host disk jobs
      (take_context host (false ∷ true ∷ []) false jobs (pos 3) back disk)
      (taken, info jobs meta' (length left))
      meta'
      left
    × Split back taken left items
    × (length taken ≡ 2)
unfolding take_items validate_take lock_mutex
take_refines_example =
    take_refines host disk jobs meta items back back 2 (false ∷ true ∷ []) refl refl jobs_valid
      (λ e. cc) ready holds (omega arith)

offer_lem_example :
    Offered declined disk jobs meta
      (codes "qnt_1")
      a
      (b ∷ [])
      (locked host lock_timeout jobs (offer host (λ n. declined) jobs) disk)
unfolding text_eq
offer_lem_example =
    offer_lem host (λ n. declined) disk jobs meta (codes "qnt_1") a (b ∷ []) ready holds refl refl
      (omega arith) (omega arith)

pin_keeps_item_example :
    (let q = push_items front (a ∷ []) (meta, items) in
      let t = take_items front 1 (meta, items) in
      SamePin (meta, items) q × IsPinned q × SamePin (meta, items) (t.1, t.2) × IsPinned (t.1, t.2))
pin_keeps_item_example = pin_keeps_item front (a ∷ []) 1 items meta (inl refl)

-- A host on which every item fills a file.
abbrev wide : Host
wide = record host { width = λ l. max_bytes }

abbrev nearly_full : Disk
nearly_full = record {
  present = true;
  nodes = (file_name jobs, file (encode wide.width meta [])) ∷ [];
}

wide-IsReady : IsReady wide nearly_full jobs
unfolding lookup text_eq
wide-IsReady = record {
  present = refl;
  unlocked = refl;
  can_lock = refl;
  can_unlock = refl;
  can_open = refl;
  can_write = λ f. refl;
}

wide-Holds : Holds nearly_full jobs meta []
unfolding lookup text_eq decode encode
wide-Holds = record {
  stored = encode wide.width meta [];
  found = refl;
  decodes = refl;
  named = refl;
}

push_past_limit_example :
    (let after = push wide jobs (a ∷ []) unset nearly_full in
      (after.0 ≡ ok (info jobs meta 1)) × ((get wide jobs after.1).0 ≡ err too_large))
unfolding push_items push_direction
push_past_limit_example =
    push_past_limit wide nearly_full jobs meta [] back unset (a ∷ []) refl jobs_valid wide-IsReady
      wide-Holds (omega arith)

abbrev drained : Disk
drained = record { present = true; nodes = (file_name jobs, file (encode width meta [])) ∷ [] }

take_fails_atomically_example :
    SameQueues drained (take_context host (true ∷ []) false jobs (pos 1) unset drained).1
unfolding take_context validate_take lock_mutex valid_name locked take_locked read_named read decode
    encode lookup insert text_eq
take_fails_atomically_example =
    take_fails_atomically host drained (empty (info jobs meta 0)) refl (true ∷ []) false jobs
      (pos 1) unset refl
