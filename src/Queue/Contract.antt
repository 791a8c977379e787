-- ===== src/Queue/Contract.antt =====
-- The contract of Push, TakeContext and Monitor, for the whole calls.
use mathlib.Core.List.{reverse, reverse-reverse}
use parrot_coder.Base.{
  ℕ, suc, ◌-◌, ◌≤◌, ◌≡◌, ◌≢◌, refl, ap, ◌∙◌, min, Bool, true, false, List, [], ◌++◌, Text, pos,
  arith, length, take, drop, take-append-drop, take-reverse, length-take, length-reverse,
}
use parrot_coder.Queue.Names.{valid_name}
use parrot_coder.Queue.File.{Metadata, info, ok, max_bytes, lock_timeout, cancelled}
use parrot_coder.Queue.Disk.{Disk, Host}
use parrot_coder.Queue.Ops.{
  Direction, unset, back, push, push_locked, push_items, push_direction, take_items, take_context,
  take_locked, monitor, monitor_locked, validate_take, lock_mutex,
}
use parrot_coder.Queue.Access.{IsReady, Holds, encoded_bytes, locked_lem}
use parrot_coder.Queue.Stored.{stored}
use parrot_coder.Queue.Refinement.{
  Done, stored-Done, pushed_items, push_items_lem, push_items-name, push_locked_lem,
  take_locked_lem, monitor_locked_lem,
}

module _ (h : Host) (d : Disk) (name : Text) (meta : Metadata) (items : List Text) where
  pub push_stored :
      (end direction : Direction) (pushed : List Text)
      → push_direction direction ≡ ok end
      → valid_name name ≡ true
      → IsReady h d name
      → Holds d name meta items
      → push h name pushed direction d ≡ (
          let q = push_items end pushed (meta, items) in
          (ok (info name q.0 (length q.1)), stored h name q.0 q.1 d))
  unfolding push
  push_stored end direction pushed e v r q = rw (
    e,
    v,
    locked_lem h d name lock_timeout (push_locked h name end pushed) r,
    push_locked_lem h d name meta items end pushed r q,
  )

  -- Pushing to an existing queue whose lock is free, where no call of the operating system fails
  -- and the new file stays within the size limit: the call succeeds, the queue then holds its items
  -- with the new ones behind them, or (at the front) as if pushed to the front one after another;
  -- the Info has the new size; every other queue is untouched and the lock is free again.
  pub push_refines :
      (end direction : Direction) (pushed : List Text)
      → push_direction direction ≡ ok end
      → valid_name name ≡ true
      → IsReady h d name
      → Holds d name meta items
      → encoded_bytes h (push_items end pushed (meta, items)).0 (pushed_items end pushed items)
        ≤ max_bytes
      → Done h d name
          (push h name pushed direction d)
          (info name
            (push_items end pushed (meta, items)).0
            (length (pushed_items end pushed items)))
          (push_items end pushed (meta, items)).0
          (pushed_items end pushed items)
  push_refines end direction pushed e v r q fits =
      let items' = push_items_lem end pushed items meta in
      stored-Done h d name _ _ _ _ (push_stored end direction pushed e v r q ∙ rw items' refl) r
        fits (push_items-name end pushed items meta ∙ q.named)

-- Which end `taken` comes off, first taken first.
abbrev pub Split : Direction → List Text → List Text → List Text → Type 0
Split back taken left items = left ++ reverse taken ≡ items
Split _ taken left items = taken ++ left ≡ items

pub take_items-Split :
    (end : Direction) (count : ℕ) (meta : Metadata) (items : List Text)
    → (let t = take_items end count (meta, items) in
        Split end t.0 t.2 items × (length t.0 ≡ min count (length items)))
unfolding take_items
take_items-Split back count meta items =
    let n = min count (length items) in
    let k = length items - n in
    let turned : take n (reverse items) ≡ reverse (drop k items) =
      take-reverse n items (omega arith) in
    (
      ap (λ (l : List Text). take k items ++ reverse l) turned
          ∙ ap (λ (l : List Text). take k items ++ l) (reverse-reverse (drop k items))
          ∙ take-append-drop k items,
      omega (arith, length-take n (reverse items), length-reverse items),
    )
take_items-Split unset count meta items =
    let n = min count (length items) in
    (take-append-drop n items, omega (arith, length-take n items))
take_items-Split _ count meta items =
    let n = min count (length items) in
    (take-append-drop n items, omega (arith, length-take n items))

take_items-name :
    (end : Direction) (count : ℕ) (meta : Metadata) (items : List Text)
    → (take_items end count (meta, items)).1.name ≡ meta.name
unfolding take_items
take_items-name back count meta items = ground arith
take_items-name unset count meta items = refl
take_items-name _ count meta items = refl

module _ (h : Host) (d : Disk) (name : Text) (meta : Metadata) (items : List Text) where
  take_stored :
      (end direction : Direction) (n : ℕ) (free : List Bool)
      → validate_take (pos (suc n)) direction ≡ ok (suc n, end)
      → lock_mutex free ≡ true
      → valid_name name ≡ true
      → items ≢ []
      → IsReady h d name
      → Holds d name meta items
      → take_context h free false name (pos (suc n)) direction d ≡ (
          let t = take_items end (suc n) (meta, items) in
          (ok (t.0, info name t.1 (length t.2)), stored h name t.1 t.2 d))
  unfolding take_context
  take_stored end direction n free e f v some_items r q = rw (
    e,
    f,
    v,
    locked_lem h d name cancelled (take_locked h name (suc n) end) r,
    take_locked_lem h d name meta items end (suc n) some_items r q,
  )

  -- Taking a positive number of items from a non-empty queue, once the mutex is free and under the
  -- conditions of a push: the call returns as many items as asked for, or all; they come off the
  -- end in question, nearest first, and what the queue then holds with what was taken is what it
  -- held, in order; every other queue is untouched and the lock is free again.
  pub take_refines :
      (end direction : Direction) (n : ℕ) (free : List Bool)
      → validate_take (pos (suc n)) direction ≡ ok (suc n, end)
      → lock_mutex free ≡ true
      → valid_name name ≡ true
      → items ≢ []
      → IsReady h d name
      → Holds d name meta items
      → (let t = take_items end (suc n) (meta, items) in encoded_bytes h t.1 t.2 ≤ max_bytes)
      → (taken : List Text) × (left : List Text) × (meta' : Metadata) × Done h d name
          (take_context h free false name (pos (suc n)) direction d)
          (taken, info name meta' (length left))
          meta'
          left
        × Split end taken left items
        × (length taken ≡ min (suc n) (length items))
  take_refines end direction n free e f v some_items r q fits =
      let t = take_items end (suc n) (meta, items) in
      let s = take_items-Split end (suc n) meta items in
      (
        t.0,
        t.2,
        t.1,
        stored-Done h d name _ _ _ _ (take_stored end direction n free e f v some_items r q) r fits
            (take_items-name end (suc n) meta items ∙ q.named),
        s.0,
        s.1,
      )

  -- Monitor changes the flag alone, under the same conditions.
  pub monitor_lem :
      (enabled : Bool)
      → valid_name name ≡ true
      → IsReady h d name
      → Holds d name meta items
      → encoded_bytes h (record meta { monitored = enabled }) items ≤ max_bytes
      → Done h d name
          (monitor h name enabled d)
          (info name (record meta { monitored = enabled }) (length items))
          (record meta { monitored = enabled })
          items
  unfolding monitor
  monitor_lem enabled v r q fits =
      stored-Done h d name _ _ _ _
        (rw (
          v,
          locked_lem h d name lock_timeout (monitor_locked h name enabled) r,
          monitor_locked_lem h d name meta items enabled r q,
        ))
        r fits q.named
