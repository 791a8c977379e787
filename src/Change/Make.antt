-- ===== src/Change/Make.antt =====
-- The directories of a plan, made before the mutations are staged and applied.
use parrot_coder.Base.{
  ◌≡◌, refl, ap, ◌∙◌, inl, inr, List, [], ◌∷◌, Text, Bool, true, false, ◌||◌, if◌then◌else◌, none,
  some, text_eq, Bool-cases, subst, All,
}
use parrot_coder.Change.Disk.{Node, Disk, put, Mutation, World, mkdir, node_of}
use parrot_coder.Change.Calls.{covers, Puts, mkdir-Puts}
use parrot_coder.Change.Undo.{Known, paths, Off, Restored, undo-Restored}
use parrot_coder.Change.Apply.{Distinct, Lands, branch_ind, write_all-Lands}
use parrot_coder.Change.Commit.{Committed, committed, refused, failed, undo, make_each}

-- The disk with directories where they are made.
abbrev pub with_directories : (Text → Bool) → Disk → Disk
with_directories made d q = if made q then some Node.directory else d q

-- Committed: every mutation is in place, the directories are made, and all else is as it was. Or
-- an error, made good.
abbrev pub Outcome : Disk → List Mutation → (Text → Bool) → Committed × World → Type 0
Outcome d0 ms made (committed, v) =
    ((q : Text) → covers (paths ms) q ≡ false → v.disk q ≡ with_directories made d0 q)
    × All (λ m. v.disk m.path ≡ node_of m.after) ms
Outcome d0 ms made (refused, v) = Restored d0 (refused, v)
Outcome d0 ms made (failed clean, v) = Restored d0 (failed clean, v)

module _ (d0 : Disk) (ms : List Mutation) where
  Lands-Outcome :
      (made : Text → Bool) (w : World) (r : Committed × World)
      → ((q : Text) → w.disk q ≡ with_directories made d0 q)
      → Lands d0 ms w r
      → Outcome d0 ms made r
  Lands-Outcome made w (committed, v) start (same, placed) = ((λ q h. same q h ∙ start q), placed)
  Lands-Outcome made w (refused, v) start h = h
  Lands-Outcome made w (failed clean, v) start h = h

  Restored-Outcome :
      (made : Text → Bool) (r : Committed × World) → Restored d0 r → Outcome d0 ms made r
  Restored-Outcome made (committed, v) h = absurd h
  Restored-Outcome made (refused, v) h = h
  Restored-Outcome made (failed clean, v) h = h

  pub Outcome-made :
      (made made' : Text → Bool) (r : Committed × World)
      → ((q : Text) → made q ≡ made' q)
      → Outcome d0 ms made r
      → Outcome d0 ms made' r
  Outcome-made made made' (committed, v) e (same, placed) =
      ((λ q h. same q h ∙ ap (λ b. if b then some Node.directory else d0 q) (e q)), placed)
  Outcome-made made made' (refused, v) e h = h
  Outcome-made made made' (failed clean, v) e h = h

  or_move : (a b c : Bool) → (b || (a || c)) ≡ ((a || b) || c)
  or_move true true c = refl
  or_move true false c = refl
  or_move false b c = refl

  made-Off :
      (created : List Text) (d : Disk)
      → ((q : Text) → d q ≡ with_directories (covers created) d0 q)
      → Off d0 [] created d
  made-Off created d start q h g = inl (start q ∙ rw g refl)

  one_more :
      (p : Text) (created : List Text) (w v : World)
      → ((q : Text) → w.disk q ≡ with_directories (covers created) d0 q)
      → ((q : Text) → v.disk q ≡ put p (some Node.directory) w.disk q)
      → (q : Text) → v.disk q ≡ with_directories (covers (p ∷ created)) d0 q
  one_more p created w v start puts q = elim (Bool-cases (text_eq p q)) [
    | inl e ↦ puts q ∙ rw e refl
    | inr e ↦ puts q ∙ (rw e (start q))
  ]

  pub make_each-Outcome :
      (ds created : List Text) (w : World)
      → All (Known d0) ms
      → Distinct ms
      → All (λ p. d0 p ≡ none) ds
      → All (λ p. d0 p ≡ none) created
      → ((q : Text) → w.disk q ≡ with_directories (covers created) d0 q)
      → Outcome d0 ms (λ q. covers ds q || covers created q) (make_each ds created ms w)
  unfolding make_each
  make_each-Outcome [] created w k apart free free' start =
      Lands-Outcome (covers created) w _ start
        (write_all-Lands d0 created free' ms w k apart (made-Off created w.disk start))
  make_each-Outcome (p ∷ ds) created w k apart free free' start =
      branch_ind (Outcome d0 ms (λ q. covers (p ∷ ds) q || covers created q)) (mkdir p w) _ _
        (λ v e.
          Outcome-made (λ q. covers ds q || covers (p ∷ created) q) _ _
            (λ q. or_move (text_eq p q) (covers ds q) (covers created q))
            (make_each-Outcome ds (p ∷ created) v k apart free.1 (free.0, free')
              (one_more p created w v start
                (subst (Puts p (some Node.directory) w) e (mkdir-Puts p w)))))
        (λ v e.
          Restored-Outcome (λ q. covers (p ∷ ds) q || covers created q) (undo [] created v)
            (undo-Restored d0 [] created v tt free' (
              made-Off created v.disk
                (λ q. subst (Puts p (some Node.directory) w) e (mkdir-Puts p w) q ∙ start q))))
