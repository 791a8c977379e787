-- ===== src/Task/Manager.antt =====
-- The manager with the tasks as it sees them: a snapshot, and who may see the task. A map is a list of
-- its entries in the order that an iteration takes.
use parrot_coder.Base.{
  ℕ, Bool, true, false, not, ◌&&◌, ◌||◌, List, [], ◌∷◌, Option, none, some, Text, codes, text_eq,
  if◌then◌else◌, is_empty, sort_by,
}

-- A string, of which two are supported.
pub data Kind : Type 0 where
  agent shell : Kind
  unsupported : Text → Kind

pub record Snapshot : Type 0 where
  pub name : Text
  pub session_id : Text
  pub process_id : Text
  pub kind : Kind
  pub status : Text

-- A registered task, known by a handle.
pub record Entry : Type 0 where
  pub handle : ℕ
  pub snapshot : Snapshot
  pub visible : Text → Bool

pub record Key : Type 0 where
  pub kind : Kind
  pub session_id : Text
  pub process_id : Text

pub data Error : Type 0 where
  session_required process_forbidden process_required unsupported_kind duplicate : Error

pub data Result (A : Type 0) : Type 0 where
  ok : A → Result A
  err : Error → Result A

abbrev pub Manager : Type 0
Manager = List (Key × Entry)

abbrev pub kind_eq : Kind → Kind → Bool
kind_eq agent agent = true
kind_eq agent shell = false
kind_eq agent (unsupported t) = false
kind_eq shell agent = false
kind_eq shell shell = true
kind_eq shell (unsupported t) = false
kind_eq (unsupported s) agent = false
kind_eq (unsupported s) shell = false
kind_eq (unsupported s) (unsupported t) = text_eq s t

abbrev pub key_of : Snapshot → Key
key_of s = record { kind = s.kind; session_id = s.session_id; process_id = s.process_id }

-- The switch on the kind in domainKeyFor.
unfoldable pub key_for_kind : Kind → Snapshot → Result Key
key_for_kind agent s = if not (is_empty s.process_id) then err process_forbidden else ok (key_of s)
key_for_kind shell s = if is_empty s.process_id then err process_required else ok (key_of s)
key_for_kind (unsupported t) s = err unsupported_kind

unfoldable pub domain_key_for : Snapshot → Result Key
domain_key_for s = if is_empty s.session_id then err session_required else key_for_kind s.kind s

abbrev pub key_eq : Key → Key → Bool
key_eq a b =
    kind_eq a.kind b.kind && text_eq a.session_id b.session_id && text_eq a.process_id b.process_id

unfoldable pub has_key : Key → Manager → Bool
has_key k [] = false
has_key k ((j, e) ∷ m) = key_eq j k || has_key k m

unfoldable pub add_at : Result Key → Entry → Manager → Result Manager
add_at (err failure) e m = err failure
add_at (ok k) e m = if has_key k m then err duplicate else ok ((k, e) ∷ m)

-- Register.
unfoldable pub register : Entry → Manager → Result Manager
register e m = add_at (domain_key_for e.snapshot) e m

unfoldable pub delete_key : Key → Manager → Manager
delete_key k [] = []
delete_key k ((j, e) ∷ m) = let rest = delete_key k m in if key_eq j k then rest else (j, e) ∷ rest

unfoldable pub delete_at : Result Key → Manager → Manager
delete_at (err failure) m = m
delete_at (ok k) m = delete_key k m

-- Unregister: a snapshot without a key changes nothing.
unfoldable pub unregister : Snapshot → Manager → Manager
unregister s m = delete_at (domain_key_for s) m

abbrev pub is_shell : Kind → Bool
is_shell shell = true
is_shell _ = false

abbrev pub domain_identifier : Snapshot → Text
domain_identifier s = if is_shell s.kind then s.process_id else s.session_id

pub data Resolution : Type 0 where
  found : Entry → Resolution
  wrong_kind ambiguous not_found : Resolution

-- Whether a caller sees a task by its ID, and by its name.
abbrev pub seen_by_id : Text → Text → Entry → Bool
seen_by_id caller identifier e =
    e.visible caller && text_eq (domain_identifier e.snapshot) identifier

abbrev pub seen_by_name : Text → Text → Entry → Bool
seen_by_name caller identifier e = e.visible caller && text_eq e.snapshot.name identifier

-- The first loop of resolve: the task with this ID, and whether one of another kind was met.
unfoldable pub scan_ids : Text → Text → Kind → Bool → List Entry → Option Entry × Bool
scan_ids caller identifier kind wrong [] = (none, wrong)
scan_ids caller identifier kind wrong (e ∷ es) =
    let rest = scan_ids caller identifier kind wrong es in
    let rest_wrong = scan_ids caller identifier kind true es in
    if not (seen_by_id caller identifier e)
    then rest
    else if not (kind_eq e.snapshot.kind kind)
    then rest_wrong
    else (some e, wrong)

abbrev pub named : Option Entry → Bool → Resolution
named (some e) wrong = found e
named none wrong = if wrong then wrong_kind else not_found

-- The second loop of resolve, with the task found so far.
unfoldable pub scan_names : Text → Text → Kind → Option Entry → Bool → List Entry → Resolution
scan_names caller identifier kind sofar wrong [] = named sofar wrong
scan_names caller identifier kind sofar wrong (e ∷ es) =
    let rest = scan_names caller identifier kind sofar wrong es in
    let rest_wrong = scan_names caller identifier kind sofar true es in
    let rest_found = scan_names caller identifier kind (some e) wrong es in
    if not (seen_by_name caller identifier e)
    then rest
    else if not (kind_eq e.snapshot.kind kind)
    then rest_wrong
    else elim sofar [ some old ↦ ambiguous | none ↦ rest_found ]

abbrev pub after_ids : Text → Text → Kind → List Entry → Option Entry × Bool → Resolution
after_ids caller identifier kind es (some e, wrong) = found e
after_ids caller identifier kind es (none, true) = wrong_kind
after_ids caller identifier kind es (none, false) = scan_names caller identifier kind none false es

unfoldable pub resolve : Text → Text → Kind → List Entry → Resolution
resolve caller identifier kind es =
    if is_empty caller || is_empty identifier
    then not_found
    else after_ids caller identifier kind es (scan_ids caller identifier kind false es)

abbrev pub is_active : Snapshot → Bool
is_active s =
    text_eq s.status (codes "blocked")
    || text_eq s.status (codes "running")
    || text_eq s.status (codes "pending")

abbrev pub active_of : Text → List Entry → List Snapshot
active_of caller [] = []
active_of caller (e ∷ es) =
    let rest = active_of caller es in
    if e.visible caller && is_active e.snapshot then e.snapshot ∷ rest else rest

unfoldable pub list_active : Text → List Entry → List Snapshot
list_active caller es =
    if is_empty caller then [] else sort_by domain_identifier (active_of caller es)
