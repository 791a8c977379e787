-- ===== src/Queue/Delivery.antt =====
-- The methods of Store over the whole directory: DeliverMonitored and List.
use parrot_coder.Base.{
  Bool, true, false, not, List, [], ◌∷◌, Option, none, some, Text, text_eq, sort_by, if◌then◌else◌,
  length,
}
use parrot_coder.Queue.Names.{valid_name, cut_suffix, jsonl}
use parrot_coder.Queue.File.{
  Metadata, ok, err, Info, info, lock_timeout, list_failed, malformed_file, no_id, callback,
}
use parrot_coder.Queue.Disk.{
  Node, file, folder, Disk, Host, M, ◌>>=◌, ◌>>◌, pure, raise, write, locked,
}
use parrot_coder.Queue.Ops.{read_named}

pub record Notification : Type 0 where
  pub id : Text
  pub name : Text
  pub item : Text

-- What the callback answers.
pub data Answer : Type 0 where
  accepted declined failed : Answer

-- What the loop does after one queue.
pub data Offer : Type 0 where
  skipped refused delivered : Offer

-- The entries that the scans look at, by the name of their queue.
unfoldable pub queue_entry : Text × Node → Option Text
unfolding cut_suffix
queue_entry (entry, folder) = none
queue_entry (entry, file _) = cut_suffix jsonl entry

-- os.ReadDir sorts the entries by file name.
unfoldable pub read_dir : Disk → List (Text × Node)
unfolding sort_by
read_dir d = sort_by (λ e. e.0) d.nodes

module _ (h : Host) (deliver : Notification → Answer) where
  new_id : Text → Metadata → List Text → Option Text → M Metadata
  new_id name meta items none = raise no_id
  new_id name meta items (some id) =
      let meta' : Metadata = record meta { delivery_id = id } in
      do write h name meta' items; pure meta'

  -- A queue without a delivery ID is given one before its item is offered.
  unfoldable pub pin : Text → Metadata → List Text → M Metadata
  unfolding new_id
  pin name meta items =
      if text_eq meta.delivery_id [] then new_id name meta items h.fresh_id else pure meta

  unfoldable pub conclude : Text → Metadata → List Text → Answer → M Offer
  conclude name meta rest accepted = do
    write h name (record meta { delivery_id = [] }) rest
    pure delivered
  conclude name meta rest declined = pure refused
  conclude name meta rest failed = raise callback

  unfoldable pub offer_item : Text → Metadata → List Text → M Offer
  offer_item name meta [] = pure skipped
  offer_item name meta (item ∷ rest) = if not meta.monitored then pure skipped else do
    meta' ← pin name meta (item ∷ rest)
    conclude name meta' rest (deliver (record { id = meta'.delivery_id; name = name; item = item }))

  -- The body of the loop while the queue's lock is held.
  unfoldable pub offer : Text → M Offer
  unfolding offer_item
  offer name = do (meta, items) ← read_named h name; offer_item name meta items

  after_offer : M Bool → Offer → M Bool
  after_offer next skipped = next
  after_offer next refused = pure false
  after_offer next delivered = pure true

  scan_entry : M Bool → Option Text → M Bool
  scan_entry next none = next
  scan_entry next (some name) =
      if not (valid_name name)
      then raise malformed_file
      else do r ← locked h lock_timeout name (offer name); after_offer next r

  unfoldable pub scan : List (Text × Node) → M Bool
  unfolding scan_entry after_offer queue_entry
  scan [] = pure false
  scan (entry ∷ entries) = scan_entry (scan entries) (queue_entry entry)

  unfoldable pub deliver_monitored : M Bool
  unfolding scan read_dir
  deliver_monitored d =
      if not d.present
      then (ok false, d)
      else if h.readdir_fails
      then (err list_failed, d)
      else scan (read_dir d) d

module _ (h : Host) where
  list_entry : M (List Info) → Option Text → M (List Info)
  list_entry next none = next
  list_entry next (some name) = if not (valid_name name) then raise malformed_file else do
    (meta, items) ← read_named h name
    rest ← next
    pure (info name meta (length items) ∷ rest)

  unfoldable pub list_entries : List (Text × Node) → M (List Info)
  unfolding list_entry queue_entry
  list_entries [] = pure []
  list_entries (entry ∷ entries) = list_entry (list_entries entries) (queue_entry entry)

  -- List sorts what it read by queue name.
  unfoldable pub list : M (List Info)
  unfolding list_entries read_dir sort_by
  list d =
      if not d.present
      then (ok [], d)
      else if h.readdir_fails
      then (err list_failed, d)
      else (do infos ← list_entries (read_dir d); pure (sort_by (λ i. i.name) infos)) d
