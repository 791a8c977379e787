-- ===== src/Task/Registry.antt =====
-- Registration and its end, and the list of active tasks.
use parrot_coder.Base.{
  ◌≡◌, inl, inr, refl, ap, subst, true, false, List, [], ◌∷◌, Text, text_eq_refl, Bool-cases, arith,
  is_empty, sort_by-perm, sort_by-IsSorted, IsSorted,
}
use mathlib.Core.List.{Perm}
use parrot_coder.Task.Manager.{
  Kind, agent, shell, unsupported, Entry, Key, Result, ok, err, Manager, kind_eq, key_eq,
  domain_key_for, has_key, add_at, register, delete_key, delete_at, unregister, domain_identifier,
  active_of, list_active,
}

kind_eq_refl : (k : Kind) → kind_eq k k ≡ true
kind_eq_refl agent = refl
kind_eq_refl shell = refl
kind_eq_refl (unsupported t) = text_eq_refl t

key_eq_refl : (k : Key) → key_eq k k ≡ true
key_eq_refl k =
    ground (arith, kind_eq_refl k.kind, text_eq_refl k.session_id, text_eq_refl k.process_id)

delete_missing : (k : Key) (m : Manager) → has_key k m ≡ false → delete_key k m ≡ m
unfolding has_key delete_key
delete_missing k [] h = refl
delete_missing k ((j, e) ∷ m) h = elim (Bool-cases (key_eq j k)) [
  | inl q ↦ ground (arith, h, q)
  | inr q ↦ rw q (ap (λ r. (j, e) ∷ r) (delete_missing k m (ground (arith, h, q))))
]

delete_added :
    (k : Key) (e : Entry) (m : Manager) → has_key k m ≡ false → delete_key k ((k, e) ∷ m) ≡ m
unfolding delete_key
delete_added k e m h = rw (key_eq_refl k) (delete_missing k m h)

-- What the manager is after a registration that worked.
abbrev Undone : Result Key → Manager → Result Manager → Type 0
Undone r m (err failure) = Unit {0}
Undone r m (ok m') = delete_at r m' ≡ m

add_at-Undone : (r : Result Key) (e : Entry) (m : Manager) → Undone r m (add_at r e m)
unfolding add_at delete_at
add_at-Undone (err failure) e m = tt
add_at-Undone (ok k) e m = elim (Bool-cases (has_key k m)) [
  | inl q ↦ rw q tt
  | inr q ↦ rw q (delete_added k e m q)
]

-- A task that is registered and unregistered leaves the manager as it was.
pub register-unregister :
    (e : Entry) (m m' : Manager) → register e m ≡ ok m' → unregister e.snapshot m' ≡ m
unfolding register unregister
register-unregister e m m' h =
    subst (Undone (domain_key_for e.snapshot) m) h (add_at-Undone (domain_key_for e.snapshot) e m)

-- The active tasks that a caller sees, each once, in the order of their IDs.
pub list_active-IsSorted :
    (caller : Text) (es : List Entry)
    → is_empty caller ≡ false
    → Perm (list_active caller es) (active_of caller es)
      × IsSorted domain_identifier (list_active caller es)
unfolding list_active
list_active-IsSorted caller es h = rw h (
  sort_by-perm domain_identifier (active_of caller es),
  sort_by-IsSorted domain_identifier (active_of caller es),
)
