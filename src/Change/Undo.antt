-- ===== src/Change/Undo.antt =====
-- What restoreState, rollback and removeDirectories bring back.
use parrot_coder.Base.{
  ◌≡◌, refl, ap, sym, ◌∙◌, inl, inr, List, [], ◌∷◌, Text, Bool, true, false, is_empty, Option, none,
  some, ◌&&◌, ◌||◌, ◌⊎◌, text_eq, each_key, arith, Bool-cases, map, All,
}
use parrot_coder.Change.Disk.{
  Node, regular, link, Disk, put, FileState, Mutation, World, Call, remove_node, symlink,
  stage_file, and_then, perm, node_of, is_regular_state, apply_state, restore_state,
}
use parrot_coder.Change.Calls.{
  covers, OnlyAt, Puts, remove-Puts, rename-Puts, symlink-Puts, stage-disk, put_other, put_self,
}
use parrot_coder.Change.Commit.{
  Committed, committed, refused, failed, place_path, sort_paths, deeper, remove_each,
  remove_directories, rollback, undo,
}

-- The node is put in place, or at most the path is touched.
abbrev pub Sets : Text → Option Node → World → Bool × World → Type 0
Sets p n w (true, w') = (q : Text) → w'.disk q ≡ put p n w.disk q
Sets p n w (false, w') = OnlyAt p w (false, w')

Puts-Sets :
    (p : Text) (n : Option Node) (w : World) (r : Bool × World) → Puts p n w r → Sets p n w r
Puts-Sets p n w (true, w') h = h
Puts-Sets p n w (false, w') h = λ q e. h q

put_twice : (p q : Text) (n m : Option Node) (d : Disk) → put p n (put p m d) q ≡ put p n d q
put_twice p q n m d = elim (Bool-cases (text_eq p q)) [ inl e ↦ rw e refl | inr e ↦ rw e refl ]

pub put_over :
    (p q : Text) (n : Option Node) (d e : Disk)
    → (text_eq p q ≡ false → d q ≡ e q)
    → put p n d q ≡ put p n e q
put_over p q n d e h = elim (Bool-cases (text_eq p q)) [ inl t ↦ rw t refl | inr t ↦ rw t (h t) ]

-- A second call at the path, after one that touched nothing else.
second-Sets :
    (p : Text) (n : Option Node) (w v : World) (r : Bool × World)
    → OnlyAt p w (true, v)
    → Puts p n v r
    → Sets p n w r
second-Sets p n w v (true, u) first h = λ q. h q ∙ put_over p q n v.disk w.disk (first q)
second-Sets p n w v (false, u) first h = λ q e. h q ∙ first q e

then-Sets :
    (p : Text) (n : Option Node) (w : World) (r : Bool × World) (call : Call)
    → OnlyAt p w r
    → ((v : World) → Puts p n v (call v))
    → Sets p n w (and_then r call)
then-Sets p n w (true, v) call first h = second-Sets p n w v (call v) first (h v)
then-Sets p n w (false, v) call first h = first

Puts-OnlyAt :
    (p : Text) (n : Option Node) (w : World) (r : Bool × World) → Puts p n w r → OnlyAt p w r
Puts-OnlyAt p n w (true, w') h = λ q e. h q ∙ put_other p q n w.disk e
Puts-OnlyAt p n w (false, w') h = λ q e. h q

-- Without a symbolic link to make, a state is put in place or nothing changes.
pub apply_state-Puts :
    (s : FileState) (staged : Bool) (w : World)
    → is_empty s.symlink_target ≡ true
    → Puts s.path (node_of s) w (apply_state s staged w)
unfolding apply_state node_of
apply_state-Puts s staged w plain = elim (Bool-cases s.exists) [
  | inl e ↦ elim (Bool-cases staged) [
    | inl g ↦ rw (e, plain, g) (rename-Puts s.path (regular (perm s.mode) s.content) w)
    | inr g ↦ rw (e, plain, g) (λ q. refl)
  ]
  | inr e ↦ rw e (remove-Puts s.path w)
]

-- A state that is not a regular file needs nothing staged.
apply_state-Sets :
    (s : FileState) (w : World)
    → is_regular_state s ≡ false
    → Sets s.path (node_of s) w (apply_state s false w)
unfolding apply_state node_of
apply_state-Sets s w other = elim (Bool-cases s.exists) [
  | inr e ↦ rw e (Puts-Sets s.path none w (remove_node s.path w) (remove-Puts s.path w))
  | inl e ↦
      let linked : is_empty s.symlink_target ≡ false = ground arith in
      rw (e, linked)
        (then-Sets s.path (some (link s.mode s.symlink_target)) w (remove_node s.path w)
          (symlink s.path (link s.mode s.symlink_target))
          (Puts-OnlyAt s.path none w (remove_node s.path w) (remove-Puts s.path w))
          (symlink-Puts s.path (link s.mode s.symlink_target)))
]

pub restore_state-Sets : (s : FileState) (w : World) → Sets s.path (node_of s) w (restore_state s w)
unfolding restore_state
restore_state-Sets s w = elim (Bool-cases (is_regular_state s)) [
  | inl r ↦
      let plain : is_empty s.symlink_target ≡ true = ground arith in
      rw r (
        then-Sets s.path (node_of s) w (stage_file w) (apply_state s true)
          (λ q f. ap (λ (d : Disk). d q) (stage-disk w)) (λ v. apply_state-Puts s true v plain))
  | inr r ↦ rw r (apply_state-Sets s w r)
]

-- What is left of a node that is staged again: the permission bits of its mode.
abbrev pub kept : Option Node → Option Node
kept (some (regular mode content)) = some (regular (perm mode) content)
kept o = o

-- The node is back, or it is back with the permission bits of its mode alone.
abbrev pub Near : Option Node → Option Node → Type 0
Near o a = (a ≡ o) ⊎ (a ≡ kept o)

pub Near-at : (o a b : Option Node) → a ≡ b → Near o b → Near o a
Near-at o a b e (inl h) = inl (e ∙ h)
Near-at o a b e (inr h) = inr (e ∙ h)

-- The mutation as the disk was before the commit.
pub record Known (d0 : Disk) (m : Mutation) : Type 0 where
  pub node : kept (d0 m.path) ≡ node_of m.before
  pub before_path : m.before.path ≡ m.path
  pub after_path : m.after.path ≡ m.path
  pub plain : is_empty m.after.symlink_target ≡ true

abbrev pub paths : List Mutation → List Text
paths = map λ (m : Mutation). m.path

-- The disk is as it was, but at the paths of some mutations and directories.
abbrev pub Off : Disk → List Mutation → List Text → Disk → Type 0
Off d0 ms ds d = (q : Text) → covers (paths ms) q ≡ false → covers ds q ≡ false → Near (d0 q) (d q)

module _ (d0 : Disk) where
  restored :
      (m : Mutation) (ms : List Mutation) (ds : List Text) (w : World) (r : Bool × World)
      → Known d0 m
      → Off d0 (m ∷ ms) ds w.disk
      → Sets m.before.path (node_of m.before) w r
      → r.0 ≡ true
      → Off d0 ms ds r.1.disk
  unfolding node_of
  restored m ms ds w (true, v) k off sets good q h g =
      Near-at _ _ _ (rw (k.before_path) at (sets q)) (
        each_key (λ t. Near (d0 t) (put m.path (node_of m.before) w.disk t)) m.path q
          (inr (put_self m.path (node_of m.before) w.disk ∙ sym k.node))
          (λ e.
            Near-at _ _ _ (put_other m.path q (node_of m.before) w.disk e)
              (off q (rw (e, h) refl) g)))
  restored m ms ds w (false, v) k off sets good q h g = absurd (cc)

  and_parts : (a b : Bool) → (a && b) ≡ true → (a ≡ true) × (b ≡ true)
  and_parts true b h = (refl, h)
  and_parts false b h = absurd (cc)

  rollback-Off :
      (ms : List Mutation) (ds : List Text) (w : World)
      → All (Known d0) ms
      → Off d0 ms ds w.disk
      → (rollback ms w).0 ≡ true
      → Off d0 [] ds (rollback ms w).1.disk
  unfolding rollback
  rollback-Off [] ds w k off good = off
  rollback-Off (m ∷ ms) ds w k off good =
      let (a, b) =
        and_parts (restore_state m.before w).0 (rollback ms (restore_state m.before w).1).0 good in
      rollback-Off ms ds (restore_state m.before w).1 k.1
        (restored m ms ds w (restore_state m.before w) k.0 off (restore_state-Sets m.before w) a) b

  removed :
      (p : Text) (ds : List Text) (w : World) (r : Bool × World)
      → d0 p ≡ none
      → Off d0 [] (p ∷ ds) w.disk
      → Puts p none w r
      → r.0 ≡ true
      → Off d0 [] ds r.1.disk
  removed p ds w (true, v) free off puts good q h g = Near-at _ _ _ (puts q) (
      each_key (λ t. Near (d0 t) (put p none w.disk t)) p q
        (inl (put_self p none w.disk ∙ sym free))
        (λ e. Near-at _ _ _ (put_other p q none w.disk e) (off q refl (rw (e, g) refl))))
  removed p ds w (false, v) free off puts good q h g = absurd (cc)

  remove_each-Off :
      (ds : List Text) (w : World)
      → All (λ p. d0 p ≡ none) ds
      → Off d0 [] ds w.disk
      → (remove_each ds w).0 ≡ true
      → (q : Text) → Near (d0 q) ((remove_each ds w).1.disk q)
  unfolding remove_each
  remove_each-Off [] w free off good q = off q refl refl
  remove_each-Off (p ∷ ds) w free off good q =
      let (a, b) = and_parts (remove_node p w).0 (remove_each ds (remove_node p w).1).0 good in
      remove_each-Off ds (remove_node p w).1 free.1
        (removed p ds w (remove_node p w) free.0 off (remove-Puts p w) a) b q

module _ (below : Text → Text → Bool) where
  covers-place :
      (x : Text) (ys : List Text) (q : Text)
      → covers (place_path below x ys) q ≡ (text_eq x q || covers ys q)
  unfolding place_path
  covers-place x [] q = refl
  covers-place x (y ∷ ys) q = elim (Bool-cases (below y x)) [
    | inl e ↦ rw e (rw (covers-place x ys q) (or_swap (text_eq y q) (text_eq x q) (covers ys q)))
    | inr e ↦ rw e refl
  ]
    where
      or_swap : (a b c : Bool) → (a || (b || c)) ≡ (b || (a || c))
      or_swap true true c = refl
      or_swap true false c = refl
      or_swap false b c = refl

  pub covers-sort_paths : (xs : List Text) (q : Text) → covers (sort_paths below xs) q ≡ covers xs q
  unfolding sort_paths
  covers-sort_paths [] q = refl
  covers-sort_paths (x ∷ xs) q =
      covers-place x (sort_paths below xs) q ∙ ap (λ b. text_eq x q || b) (covers-sort_paths xs q)

  All-place {ℓ} :
      (P : Text → Type ℓ) (x : Text) (ys : List Text)
      → P x
      → All P ys
      → All P (place_path below x ys)
  unfolding place_path
  All-place P x [] p a = (p, tt)
  All-place P x (y ∷ ys) p a = elim (Bool-cases (below y x)) [
    | inl e ↦ rw e (a.0, All-place P x ys p a.1)
    | inr e ↦ rw e (p, a)
  ]

  pub All-sort_paths {ℓ} :
      (P : Text → Type ℓ) (xs : List Text) → All P xs → All P (sort_paths below xs)
  unfolding sort_paths
  All-sort_paths P [] a = tt
  All-sort_paths P (x ∷ xs) a = All-place P x (sort_paths below xs) a.0 (All-sort_paths P xs a.1)

-- After an error: if what followed it reported none, the disk is as it was, but for the bits of modes
-- that are not permissions.
abbrev pub Restored : Disk → Committed × World → Type 0
Restored d0 (committed, w) = ⊥
Restored d0 (refused, w) = (q : Text) → w.disk q ≡ d0 q
Restored d0 (failed clean, w) = clean ≡ true → (q : Text) → Near (d0 q) (w.disk q)

pub undo-Restored :
    (d0 : Disk) (ms : List Mutation) (ds : List Text) (w : World)
    → All (Known d0) ms
    → All (λ p. d0 p ≡ none) ds
    → Off d0 ms ds w.disk
    → Restored d0 (undo ms ds w)
unfolding undo remove_directories
undo-Restored d0 ms ds w known free off clean q =
    let (a, b) = and_parts d0 (rollback ms w).0 _ clean in
    let back : Off d0 [] ds (rollback ms w).1.disk = rollback-Off d0 ms ds w known off a in
    remove_each-Off d0 (sort_paths deeper ds) (rollback ms w).1 (All-sort_paths deeper _ ds free)
      (λ t h g. back t h (sym (covers-sort_paths deeper ds t) ∙ g)) b q
