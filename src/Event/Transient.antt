-- ===== src/Event/Transient.antt =====
-- TransientRepository: subscriptions with bounded queues, and what happens when one is full.
use parrot_coder.Base.{
  ℕ, List, [], ◌∷◌, ◌++◌, Text, Bool, true, false, not, ◌&&◌, ltb, if◌then◌else◌, length, take,
  drop, Option, none, some, text_eq, is_empty,
}

-- The types that matter: tool output that may be dropped, any other known type, an unknown type.
pub data EventType : Type 0 where
  tool_output_delta known unknown : EventType

-- `valid` says that the data is not empty and is JSON.
pub record Event : Type 0 where
  pub id : Text
  pub type : EventType
  pub session_id : Text
  pub payload : Text
  pub valid : Bool
  pub sequence : Option ℕ
  pub created_at : Option ℕ

abbrev pub known_event : EventType → Bool
known_event unknown = false
known_event t = true

-- disposableToolOutput.
abbrev is_delta : EventType → Bool
is_delta tool_output_delta = true
is_delta t = false

abbrev pub disposable : Event → Bool
disposable e = is_delta e.type

-- What the receiver takes while a send to a full channel is under way, as it does so without the mutex:
-- which events, of those queued, while the channel is emptied, and how many of those put back before
-- the second send.
pub record Race : Type 0 where
  pub taken : List Bool
  pub early : ℕ

-- A subscription: its key, the channel's capacity and what is queued in it; what has been received from it,
-- and the races to come, after which there are none.
pub record Listener : Type 0 where
  pub session : Text
  pub id : ℕ
  pub capacity : ℕ
  pub queued : List Event
  pub received : List Event
  pub races : List Race

-- evictDisposableToolOutput: the first tool output goes, if there is one.
unfoldable pub evict : List Event → Option (List Event)
evict [] = none
evict (e ∷ es) =
    let rest = evict es in
    if disposable e then some es else elim rest [ none ↦ none | some es' ↦ some (e ∷ es') ]

-- The emptied channel: what the receiver takes, and what evictDisposableToolOutput does.
abbrev pub divide : List Bool → List Event → List Event × List Event
divide bs [] = ([], [])
divide [] (e ∷ es) = ([], e ∷ es)
divide (b ∷ bs) (e ∷ es) =
    let (theirs, mine) = divide bs es in if b then (e ∷ theirs, mine) else (theirs, e ∷ mine)

-- The second select; `none` closes the subscription.
unfoldable pub second_send : Event → Listener → Option Listener
second_send e l =
    if ltb (length l.queued) l.capacity
    then some (record l { queued = l.queued ++ (e ∷ []) })
    else none

-- After the eviction, with what it put back, or `none` for nothing evicted.
unfoldable pub after_evict : ℕ → Event → Listener → Option (List Event) → Option Listener
unfolding second_send
after_evict early e l (some es) = some (record l { queued = es ++ (e ∷ []) })
after_evict early e l none =
    second_send e
      (record l { received = l.received ++ take early l.queued; queued = drop early l.queued })

unfoldable pub offer_raced : Race → Event → Listener → Option Listener
unfolding evict after_evict
offer_raced race e l =
    let (theirs, mine) = divide race.taken l.queued in
    after_evict race.early e (record l { received = l.received ++ theirs; queued = mine })
      (evict mine)

-- The races of this send.
unfoldable pub offer_next : List Race → Event → Listener → Option Listener
unfolding offer_raced
offer_next [] e l = offer_raced (record { taken = []; early = 0 }) e l
offer_next (race ∷ races) e l = offer_raced race e (record l { races = races })

-- The case of a full channel.
unfoldable pub offer_full : Event → Listener → Option Listener
unfolding offer_next
offer_full e l = if disposable e then some l else offer_next l.races e l

unfoldable pub offer : Event → Listener → Option Listener
unfolding offer_full
offer e l =
    if ltb (length l.queued) l.capacity
    then some (record l { queued = l.queued ++ (e ∷ []) })
    else offer_full e l

abbrev pub keep_open : Option Listener → List Listener → List Listener
keep_open none ls = ls
keep_open (some l) ls = l ∷ ls

-- The loop over the subscriptions of one key.
unfoldable pub offer_each : Text → Event → List Listener → List Listener
unfolding offer
offer_each route e [] = []
offer_each route e (l ∷ ls) =
    let rest = offer_each route e ls in
    if text_eq l.session route then keep_open (offer e l) rest else l ∷ rest

abbrev pub acceptable : Text → Event → Bool
acceptable route e =
    not (is_empty route) && not (is_empty e.session_id) && known_event e.type && e.valid

-- The event with a new ID where it has none; an empty `fresh` is an ID that could not be made.
abbrev pub with_id : Text → Event → Option Event
with_id fresh e =
    if not (is_empty e.id)
    then some e
    else if is_empty fresh
    then none
    else some (record e { id = fresh })

abbrev pub offer_some : Text → Option Event → List Listener → List Listener
offer_some route none ls = ls
offer_some route (some e) ls = offer_each route e ls

-- publish, with the ID that would be assigned.
unfoldable pub publish : Text → Event → Bool → Text → List Listener → List Listener
unfolding offer_each
publish route e assign fresh ls =
    if not (acceptable route e)
    then ls
    else offer_some route (if assign then with_id fresh e else some e) ls

-- Subscribe, with the next ID and the races that will be.
unfoldable pub subscribe : List Race → Text → ℕ → ℕ → List Listener → List Listener
subscribe races session capacity next ls =
    record {
      session = session;
      id = next;
      capacity = if ltb capacity 1 then 1 else capacity;
      queued = [];
      received = [];
      races = races;
    }
    ∷ ls
