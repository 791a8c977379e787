-- ===== src/Queue/Pinning.antt =====
-- The delivery ID and the first item of a queue.
use parrot_coder.Base.{
  ℕ, zero, suc, ◌-◌, ◌≡◌, ◌≢◌, refl, min, List, [], ◌∷◌, ◌++◌, Option, none, some, Text, length,
  take, inl, inr, ◌⊎◌,
}
use parrot_coder.Queue.File.{Metadata}
use parrot_coder.Queue.Ops.{Direction, unset, front, back, push_items, take_items, clear_if_empty}

-- A queue that has a delivery ID has an item for it.
abbrev pub IsPinned : Metadata × List Text → Type 0
IsPinned (meta, items) = (meta.delivery_id ≡ []) ⊎ (items ≢ [])

abbrev pub first : List Text → Option Text
first [] = none
first (item ∷ _) = some item

-- The ID is gone, or it is the same and stands for the same item.
abbrev pub SamePin : Metadata × List Text → Metadata × List Text → Type 0
SamePin (meta, items) (meta', items') =
    (meta'.delivery_id ≡ [])
    ⊎ ((meta'.delivery_id ≡ meta.delivery_id) × (first items' ≡ first items) × (items' ≢ []))

push_back-SamePin :
    (meta : Metadata) (items pushed : List Text)
    → IsPinned (meta, items)
    → SamePin (meta, items) (meta, items ++ pushed)
push_back-SamePin meta [] pushed (inl e) = inl e
push_back-SamePin meta [] pushed (inr n) = absurd (n refl)
push_back-SamePin meta (item ∷ items) pushed p = inr (refl, refl, λ e. cc)

-- Pushing on either end drops the ID or keeps it with its item.
pub push_items-SamePin :
    (end : Direction) (pushed items : List Text) (meta : Metadata)
    → IsPinned (meta, items)
    → SamePin (meta, items) (push_items end pushed (meta, items))
unfolding push_items
push_items-SamePin front [] [] meta (inl e) = inl e
push_items-SamePin front [] [] meta (inr n) = absurd (n refl)
push_items-SamePin front [] (item ∷ items) meta p = inr (refl, refl, λ e. cc)
push_items-SamePin front (x ∷ xs) items meta p = inl refl
push_items-SamePin unset pushed items meta p = push_back-SamePin meta items pushed p
push_items-SamePin _ pushed items meta p = push_back-SamePin meta items pushed p

take_back-SamePin :
    (k n : ℕ) (meta : Metadata) (items : List Text)
    → SamePin (meta, items) (clear_if_empty (take k items) meta, take k items)
take_back-SamePin zero n meta items = inl refl
take_back-SamePin (suc k) n meta [] = inl refl
take_back-SamePin (suc k) n meta (item ∷ items) = inr (refl, refl, λ e. cc)

-- So does taking from either end.
pub take_items-SamePin :
    (end : Direction) (count : ℕ) (items : List Text) (meta : Metadata)
    → (let t = take_items end count (meta, items) in SamePin (meta, items) (t.1, t.2))
unfolding take_items
take_items-SamePin back count items meta =
    take_back-SamePin (length items - min count (length items)) count meta items
take_items-SamePin unset count items meta = inl refl
take_items-SamePin _ count items meta = inl refl

SamePin-IsPinned : (q q' : Metadata × List Text) → SamePin q q' → IsPinned q'
SamePin-IsPinned q q' (inl e) = inl e
SamePin-IsPinned q q' (inr s) = inr s.2

-- From a queue whose delivery ID, if any, has an item to stand for, a push at either end and a take
-- of any count from either end drop the ID, or keep the very ID with the same first item; so the
-- resulting queue's ID, if any, has an item too.
pub pin_keeps_item :
    (end : Direction) (pushed : List Text) (count : ℕ) (items : List Text) (meta : Metadata)
    → IsPinned (meta, items)
    → (let q = push_items end pushed (meta, items) in
        let t = take_items end count (meta, items) in
        SamePin (meta, items) q
        × IsPinned q
        × SamePin (meta, items) (t.1, t.2)
        × IsPinned (t.1, t.2))
pin_keeps_item end pushed count items meta p =
    let s = push_items-SamePin end pushed items meta p in
    let s' = take_items-SamePin end count items meta in
    let t = take_items end count (meta, items) in
    (
      s,
      SamePin-IsPinned (meta, items) (push_items end pushed (meta, items)) s,
      s',
      SamePin-IsPinned (meta, items) (t.1, t.2) s',
    )
