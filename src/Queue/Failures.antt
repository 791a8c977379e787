-- ===== src/Queue/Failures.antt =====
-- What a call that fails does to the queues.
use parrot_coder.Base.{
  Bool-cases, inl, inr, ℕ, ◌≡◌, refl, ap, ◌∙◌, Bool, true, false, not, List, [], ◌∷◌, Option, none,
  some, Text, ℤ, lookup, arith, if◌then◌else◌,
}
use parrot_coder.Queue.Names.{valid_name, lock_name}
use parrot_coder.Queue.File.{Metadata, Error, empty, info, Result, ok, err}
use parrot_coder.Queue.Disk.{
  Node, Disk, Host, M, continue, ◌>>=◌, raise, Attempt, acquired, busy, failed, make_lock, settle,
  with_lock, guard, read, write, locked, lock_from, try_lock, release,
}
use parrot_coder.Queue.Ops.{
  Direction, push, push_locked, push_items, push_direction, take_items, take_context, take_locked,
  store_taken, monitor_locked, read_named, validate_take, lock_mutex, from_result, Taken, is_empty,
}
use parrot_coder.Queue.Access.{node_of, node_of-with_lock_dir, node_of-without_lock_dir}

-- An action that, when it fails, has changed nothing.
abbrev IsAtomic : {A : Type 0} → M A → Type 0
IsAtomic m = (d : Disk) (e : Error) → (m d).0 ≡ err e → (m d).1 ≡ d

-- An action that changes nothing.
abbrev IsReader : {A : Type 0} → M A → Type 0
IsReader m = (d : Disk) → (m d).1 ≡ d

-- An action that cannot fail.
abbrev IsTotal : {A : Type 0} → M A → Type 0
IsTotal {A} m = (d : Disk) → (a : A) × ((m d).0 ≡ ok a)

write-IsAtomic :
    (h : Host) (name : Text) (meta : Metadata) (items : List Text)
    → IsAtomic (write h name meta items)
unfolding write
write-IsAtomic h name meta items d e f = ground arith

read_named-IsReader : (h : Host) (name : Text) → IsReader (read_named h name)
unfolding read_named read
read_named-IsReader h name d = ground arith

module _ {A B : Type 0} where
  continue-IsAtomic :
      (r : Result A) (f : A → M B) (d : Disk) (e : Error)
      → ((a : A) → IsAtomic (f a))
      → (continue r f d).0 ≡ err e
      → (continue r f d).1 ≡ d
  continue-IsAtomic (ok a) f d e atomic h = atomic a d e h
  continue-IsAtomic (err _) f d e atomic h = refl

  -- What only reads may come first.
  >>=-IsAtomic :
      (m : M A) (f : A → M B) → IsReader m → ((a : A) → IsAtomic (f a)) → IsAtomic (m >>= f)
  >>=-IsAtomic m f reader atomic d e h = continue-IsAtomic (m d).0 f (m d).1 e atomic h ∙ reader d

  never_fails :
      (r : Result A) (d : Disk) (b : A → B) (e : Error)
      → (continue r (λ a d'. (ok (b a), d')) d).0 ≡ err e
      → r ≡ err e
  never_fails (ok a) d b e h = cc
  never_fails (err _) d b e h = cc

  -- A last step that cannot fail.
  >>=-ok-IsAtomic : (m : M A) (b : A → B) → IsAtomic m → IsAtomic (m >>= λ a d. (ok (b a), d))
  >>=-ok-IsAtomic m b atomic d e h =
      continue-keeps (m d).0 (m d).1 ∙ atomic d e (never_fails (m d).0 (m d).1 b e h)
    where
      continue-keeps :
          (r : Result A) (d' : Disk) → (continue r (λ a d''. (ok (b a), d'')) d').1 ≡ d'
      continue-keeps (ok a) d' = refl
      continue-keeps (err _) d' = refl

module _ (h : Host) (name : Text) where
  push_locked-IsAtomic :
      (end : Direction) (pushed : List Text) → IsAtomic (push_locked h name end pushed)
  unfolding push_locked
  push_locked-IsAtomic end pushed =
      >>=-IsAtomic (read_named h name) _ (read_named-IsReader h name) λ q.
        >>=-ok-IsAtomic (write h name (push_items end pushed q).0 (push_items end pushed q).1) _
          (write-IsAtomic h name (push_items end pushed q).0 (push_items end pushed q).1)

  store_taken-IsAtomic : (t : Taken) → IsAtomic (store_taken h name t)
  unfolding store_taken
  store_taken-IsAtomic (taken, meta, items) =
      >>=-ok-IsAtomic (write h name meta items) _ (write-IsAtomic h name meta items)

  take_locked-IsAtomic : (count : ℕ) (end : Direction) → IsAtomic (take_locked h name count end)
  unfolding take_locked
  take_locked-IsAtomic count end =
      >>=-IsAtomic (read_named h name) _ (read_named-IsReader h name) take_rest
    where
      take_rest :
          (q : Metadata × List Text)
          → IsAtomic (
              if is_empty q.1
              then raise (empty (info name q.0 0))
              else store_taken h name (take_items end count q))
      take_rest (meta, []) d e f = refl
      take_rest (meta, item ∷ items) d e f =
          store_taken-IsAtomic (take_items end count (meta, item ∷ items)) d e f

  monitor_locked-IsAtomic : (enabled : Bool) → IsAtomic (monitor_locked h name enabled)
  unfolding monitor_locked
  monitor_locked-IsAtomic enabled =
      >>=-IsAtomic (read_named h name) _ (read_named-IsReader h name) λ q.
        >>=-ok-IsAtomic (write h name (record q.0 { monitored = enabled }) q.1) _
          (write-IsAtomic h name (record q.0 { monitored = enabled }) q.1)

-- The same files under every queue's name.
abbrev pub SameQueues : Disk → Disk → Type 0
SameQueues d d' = (j : Text) → node_of d' j ≡ node_of d j

-- What a first attempt to lock gives.
abbrev Attempted : Disk → Attempt → Type 0
Attempted d (acquired made x) = SameQueues d x
Attempted d busy = Unit
Attempted d failed = Unit

attempt-cases :
    (name : Text) (d : Disk) (there fails : Bool) (lock : Option Node)
    → Attempted d
        (if not there then acquired false d else if fails then failed else make_lock name d lock)
unfolding make_lock
attempt-cases name d false fails lock = λ j. refl
attempt-cases name d true true lock = tt
attempt-cases name d true false none = node_of-with_lock_dir d name
attempt-cases name d true false (some _) = tt

try_lock-Attempted : (h : Host) (name : Text) (d : Disk) → Attempted d (try_lock h name d)
unfolding try_lock
try_lock-Attempted h name d =
    attempt-cases name d d.present (h.mkdir_fails (lock_name name))
      (lookup (lock_name name) d.nodes)

release-SameQueues :
    (h : Host) (name : Text) (made : Bool) (d : Disk) → SameQueues d (release h name made d)
unfolding release
release-SameQueues h name true d = elim (Bool-cases (h.unlock_fails (lock_name name))) [
  | inl e ↦ rw e (λ j. refl)
  | inr e ↦ rw e (node_of-without_lock_dir d name)
]
release-SameQueues h name false d = λ j. refl

module _ {A : Type 0} (h : Host) (name : Text) (body : M A) (late : Error) where
  attempt-keeps :
      (a : Attempt) (d : Disk) (e : Error)
      → IsAtomic body
      → Attempted d a
      → (let l = settle a d (err late, d) in with_lock h name body l.0 l.1).0 ≡ err e
      → SameQueues d (let l = settle a d (err late, d) in with_lock h name body l.0 l.1).1
  attempt-keeps busy d e atomic at f j = refl
  attempt-keeps failed d e atomic at f j = refl
  attempt-keeps (acquired made x) d e atomic at f j =
      release-SameQueues h name made (body x).1 j
      ∙ ap (λ (y : Disk). node_of y j) (atomic x e f)
      ∙ at j

  locked-keeps :
      (d : Disk) (e : Error)
      → IsAtomic body
      → h.later d ≡ []
      → (locked h late name body d).0 ≡ err e
      → SameQueues d (locked h late name body d).1
  unfolding locked lock_from
  locked-keeps d e atomic quiet =
      rw quiet (attempt-keeps (try_lock h name d) d e atomic (try_lock-Attempted h name d))

guard-keeps :
    {A : Type 0} (b : Bool) (e : Error) (m : M A) (d : Disk) (e' : Error)
    → ((m d).0 ≡ err e' → SameQueues d (m d).1)
    → ((guard b e >>= λ _. m) d).0 ≡ err e'
    → SameQueues d ((guard b e >>= λ _. m) d).1
guard-keeps true e m d e' keeps f j = keeps f j
guard-keeps false e m d e' keeps f j = refl

result-keeps :
    {A B : Type 0} (r : Result A) (m : A → M B) (d : Disk) (e' : Error)
    → ((a : A) → (m a d).0 ≡ err e' → SameQueues d (m a d).1)
    → ((from_result r >>= m) d).0 ≡ err e'
    → SameQueues d ((from_result r >>= m) d).1
result-keeps (ok a) m d e' keeps f j = keeps a f j
result-keeps (err e) m d e' keeps f j = refl

module _ (h : Host) (d : Disk) (e : Error) (quiet : h.later d ≡ []) where
  -- If no other process changes the directory while the call waits for the lock: a push that fails,
  -- for whatever reason, leaves every queue's file as it was.
  pub push_fails_atomically :
      (name : Text) (pushed : List Text) (direction : Direction)
      → (push h name pushed direction d).0 ≡ err e
      → SameQueues d (push h name pushed direction d).1
  unfolding push
  push_fails_atomically name pushed direction = result-keeps (push_direction direction) _ d e λ end.
      guard-keeps (valid_name name) _ _ d e (
        locked-keeps h name (push_locked h name end pushed) _ d e
          (push_locked-IsAtomic h name end pushed) quiet)

  -- So does a take that fails, and nothing is lost with the error.
  pub take_fails_atomically :
      (free : List Bool) (expired : Bool) (name : Text) (count : ℤ) (direction : Direction)
      → (take_context h free expired name count direction d).0 ≡ err e
      → SameQueues d (take_context h free expired name count direction d).1
  unfolding take_context
  take_fails_atomically free expired name count direction =
      result-keeps (validate_take count direction) _ d e λ (n, end).
        guard-keeps (lock_mutex free) _ _ d e (
          guard-keeps (valid_name name) _ _ d e (
            guard-keeps (not expired) _ _ d e (
              locked-keeps h name (take_locked h name n end) _ d e
                (take_locked-IsAtomic h name n end) quiet)))
