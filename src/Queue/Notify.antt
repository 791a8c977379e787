-- ===== src/Queue/Notify.antt =====
-- DeliverMonitored on one queue: when an item leaves it, and which delivery ID it is offered under.
use parrot_coder.Base.{
  ◌≤◌, ◌≡◌, ◌≢◌, refl, ◌∙◌, true, false, List, [], ◌∷◌, none, some, Text, lookup, lookup-insert,
  lookup-remove, text_eq, text_eq_refl, arith, if◌then◌else◌, Bool-cases, inl, inr,
}
use parrot_coder.Queue.Names.{file_name, lock_name}
use parrot_coder.Queue.Keys.{file_ne_file}
use parrot_coder.Queue.File.{
  Metadata, File, Result, ok, err, encode, max_bytes, lock_timeout, callback,
}
use parrot_coder.Queue.Disk.{file, Disk, Host, locked, write}
use parrot_coder.Queue.Ops.{read_named}
use parrot_coder.Queue.Delivery.{
  Notification, Answer, accepted, declined, failed, Offer, refused, delivered, offer, pin, conclude,
}
use parrot_coder.Queue.Access.{
  IsReady, Holds, node_of, encoded_bytes, with_lock_dir, without_lock_dir, decode-encode, write_lem,
  node_of-with_lock_dir, node_of-without_lock_dir, locked_lem,
}
use parrot_coder.Queue.Stored.{written, read_named-locked}

-- A directory reached from `d` while the lock of `name` is held.
record Within (d x : Disk) (name : Text) (meta : Metadata) (items : List Text) : Type 0 where
  present : x.present ≡ true
  holds : Holds x name meta items
  others : (j : Text) → name ≢ j → node_of x j ≡ node_of d j

with_lock_dir-Within :
    (h : Host) (d : Disk) (name : Text) (meta : Metadata) (items : List Text)
    → IsReady h d name
    → Holds d name meta items
    → Within d (with_lock_dir name d) name meta items
with_lock_dir-Within h d name meta items r q = record {
  present = r.present;
  holds = record {
    stored = q.stored;
    found = node_of-with_lock_dir d name name ∙ q.found;
    decodes = q.decodes;
    named = q.named;
  };
  others = λ j _. node_of-with_lock_dir d name j;
}

module _ (h : Host) (d x : Disk) (name : Text) (meta meta' : Metadata)
    (items items' : List Text) where
  written-Within :
      Within d x name meta items
      → meta'.name ≡ name
      → encoded_bytes h meta' items' ≤ max_bytes
      → Within d (written h name meta' items' x) name meta' items'
  written-Within w named fits = record {
    present = w.present;
    holds = record {
      stored = encode h.width meta' items';
      found = rw (
        lookup-insert (file_name name) (file_name name) (file (encode h.width meta' items'))
            x.nodes,
        text_eq_refl (file_name name),
      );
      decodes = decode-encode h meta' items' fits;
      named = named;
    };
    others = λ j n.
        rw
          (
            lookup-insert (file_name name) (file_name j) (file (encode h.width meta' items'))
                x.nodes,
            file_ne_file name j n,
          )
          (w.others j n);
  }

  write-Within :
      Within d x name meta items
      → ((f : File) → h.write_fails (file_name name) f ≡ false)
      → write h name meta' items' x ≡ (ok tt, written h name meta' items' x)
  write-Within w can_write =
      write_lem h x name meta' items' w.holds.stored w.present (can_write _) w.holds.found

-- Once the lock is given back: what the queue holds, that other queues are as they were.
pub record Left (d x : Disk) (name : Text) (meta : Metadata) (items : List Text) : Type 0 where
  pub holds : Holds x name meta items
  pub others : (j : Text) → name ≢ j → node_of x j ≡ node_of d j
  pub unlocked : lookup (lock_name name) x.nodes ≡ none

unlocked-Left :
    (d x : Disk) (name : Text) (meta : Metadata) (items : List Text)
    → Within d x name meta items
    → Left d (without_lock_dir name x) name meta items
unlocked-Left d x name meta items w = record {
  holds = record {
    stored = w.holds.stored;
    found = node_of-without_lock_dir x name name ∙ w.holds.found;
    decodes = w.holds.decodes;
    named = w.holds.named;
  };
  others = λ j n. node_of-without_lock_dir x name j ∙ w.others j n;
  unlocked =
      rw (lookup-remove (lock_name name) (lock_name name) x.nodes, text_eq_refl (lock_name name));
}

-- The ID that an item is offered under: the pinned one, or a new one.
abbrev pub offered_id : Metadata → Text → Text
offered_id meta id = if text_eq meta.delivery_id [] then id else meta.delivery_id

abbrev pub pinned : Metadata → Text → Metadata
pinned meta id = record meta { delivery_id = offered_id meta id }

-- What an offer leaves for each answer.
abbrev pub Offered :
    Answer → (d : Disk) → Text → Metadata → Text → Text → List Text → Result Offer × Disk → Type 0
Offered accepted d name meta id item rest r =
    (r.0 ≡ ok delivered) × Left d r.1 name (record meta { delivery_id = [] }) rest
Offered declined d name meta id item rest r =
    (r.0 ≡ ok refused) × Left d r.1 name (pinned meta id) (item ∷ rest)
Offered failed d name meta id item rest r =
    (r.0 ≡ err callback) × Left d r.1 name (pinned meta id) (item ∷ rest)

module _ (h : Host) (deliver : Notification → Answer) (d : Disk) (name : Text) (meta : Metadata)
    (id item : Text) (rest : List Text) where
  abbrev pub note : Notification
  note = record { id = offered_id meta id; name = name; item = item }

  pin_lem :
      (x : Disk)
      → Within d x name meta (item ∷ rest)
      → ((f : File) → h.write_fails (file_name name) f ≡ false)
      → h.fresh_id ≡ some id
      → encoded_bytes h (pinned meta id) (item ∷ rest) ≤ max_bytes
      → (y : Disk) × (pin h deliver name meta (item ∷ rest) x ≡ (ok (pinned meta id), y))
        × Within d y name (pinned meta id) (item ∷ rest)
  unfolding pin
  pin_lem x w can_write fresh fits = elim (Bool-cases (text_eq meta.delivery_id [])) [
    | inl e ↦ (
      written h name (record meta { delivery_id = id }) (item ∷ rest) x,
      ground (
        arith,
        e,
        fresh,
        write-Within h d x name meta (record meta { delivery_id = id }) (item ∷ rest) (item ∷ rest)
            w can_write,
      ),
      rw e (
          written-Within h d x name meta (record meta { delivery_id = id }) (item ∷ rest)
            (item ∷ rest) w w.holds.named (rw e at fits)),
    )
    | inr e ↦ (x, rw e, rw e w)
  ]

  -- The answers of the callback, once the item is pinned.
  conclude_lem :
      (y : Disk) (answer : Answer)
      → Within d y name (pinned meta id) (item ∷ rest)
      → ((f : File) → h.write_fails (file_name name) f ≡ false)
      → encoded_bytes h (record meta { delivery_id = [] }) rest ≤ max_bytes
      → Offered answer d name meta id item rest (
          let r = conclude h deliver name (pinned meta id) rest answer y in
          (r.0, without_lock_dir name r.1))
  unfolding conclude
  conclude_lem y accepted w can_write fits =
      let done : Metadata = record meta { delivery_id = [] } in
      rw (write-Within h d y name (pinned meta id) done (item ∷ rest) rest w can_write) (
        refl,
        unlocked-Left d _ name done rest (
            written-Within h d y name (pinned meta id) done (item ∷ rest) rest w w.holds.named
              fits),
      )
  conclude_lem y declined w can_write fits = (refl, unlocked-Left d y name _ _ w)
  conclude_lem y failed w can_write fits = (refl, unlocked-Left d y name _ _ w)

  offer_step :
      (x y : Disk)
      → read_named h name x ≡ (ok (meta, item ∷ rest), x)
      → pin h deliver name meta (item ∷ rest) x ≡ (ok (pinned meta id), y)
      → meta.monitored ≡ true
      → offer h deliver name x ≡ conclude h deliver name (pinned meta id) rest (deliver note) y
  unfolding offer
  offer_step x y reads pins monitored = ground (arith, reads, pins, monitored)

  -- A monitored queue with an item, its lock free and nothing failing, offers its first item under
  -- its delivery ID, or a new one if it has none. The item leaves the queue just when the callback
  -- accepts it, and the ID with it; when the callback declines or fails, every item stays and the
  -- ID is kept, so that the next offer is of the same notification. Other queues are untouched and
  -- the lock is free again.
  pub offer_lem :
      IsReady h d name
      → Holds d name meta (item ∷ rest)
      → meta.monitored ≡ true
      → h.fresh_id ≡ some id
      → encoded_bytes h (pinned meta id) (item ∷ rest) ≤ max_bytes
      → encoded_bytes h (record meta { delivery_id = [] }) rest ≤ max_bytes
      → Offered
          (deliver note)
          d
          name
          meta
          id
          item
          rest
          (locked h lock_timeout name (offer h deliver name) d)
  offer_lem r q monitored fresh fits fits' =
      let x = with_lock_dir name d in
      let (y, pins, w) =
        pin_lem x (with_lock_dir-Within h d name meta (item ∷ rest) r q) r.can_write fresh fits in
      rw
        (
          locked_lem h d name lock_timeout (offer h deliver name) r,
          offer_step x y (read_named-locked h d name meta (item ∷ rest) r q) pins monitored,
        )
        (conclude_lem y (deliver note) w r.can_write fits')
