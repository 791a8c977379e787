-- ===== src/Change/Apply.antt =====
-- The loop that applies the mutations: all of them, or an error and what follows it.
use parrot_coder.Base.{
  ◌≡◌, refl, ap, sym, ◌∙◌, inl, inr, List, [], ◌∷◌, Text, Bool, true, false, Option, none, text_eq,
  arith, Bool-cases, subst, All,
}
use parrot_coder.Change.Disk.{
  Node, Disk, put, Mutation, World, attempt, nothing, node_of, is_regular_state, apply_state,
  stage_file,
}
use parrot_coder.Change.Calls.{covers, Puts, nothing-disk, stage-disk, put_other, put_self}
use parrot_coder.Change.Undo.{
  Known, Near-at, paths, Off, Restored, undo-Restored, apply_state-Puts, put_over,
}
use parrot_coder.Change.Commit.{
  Committed, committed, refused, failed, branch, undo, stage_each, apply_each, write_all,
}

pub branch_ind {ℓ κ} :
    {R : Type ℓ} (P : R → Type κ) (r : Bool × World) (good bad : World → R)
    → ((v : World) → r ≡ (true, v) → P (good v))
    → ((v : World) → r ≡ (false, v) → P (bad v))
    → P (branch r good bad)
branch_ind P (true, v) good bad g b = g v refl
branch_ind P (false, v) good bad g b = b v refl

-- No two paths are one.
abbrev pub Distinct : List Mutation → Type 0
Distinct [] = Unit {0}
Distinct (m ∷ ms) = (covers (paths ms) m.path ≡ false) × Distinct ms

-- From the world `w`: the mutations are in place and nothing else has changed, or an error is made good.
abbrev pub Lands : Disk → List Mutation → World → Committed × World → Type 0
Lands d0 ms w (committed, v) =
    ((q : Text) → covers (paths ms) q ≡ false → v.disk q ≡ w.disk q)
    × All (λ m. v.disk m.path ≡ node_of m.after) ms
Lands d0 ms w (refused, v) = Restored d0 (refused, v)
Lands d0 ms w (failed clean, v) = Restored d0 (failed clean, v)

Restored-Lands :
    (d0 : Disk) (ms : List Mutation) (w : World) (r : Committed × World)
    → Restored d0 r
    → Lands d0 ms w r
Restored-Lands d0 ms w (committed, v) h = absurd h
Restored-Lands d0 ms w (refused, v) h = h
Restored-Lands d0 ms w (failed clean, v) h = h

disk_after :
    (w v : World) (b : Bool) (r : Bool × World) → r.1.disk ≡ w.disk → r ≡ (b, v) → v.disk ≡ w.disk
disk_after w v b r h e = ap (λ (x : Bool × World). x.1.disk) (sym e) ∙ h

module _ (d0 : Disk) (ds : List Text) (free : All (λ p. d0 p ≡ none) ds) where
  Off-same :
      (ms : List Mutation) (d e : Disk) → ((q : Text) → e q ≡ d q) → Off d0 ms ds d → Off d0 ms ds e
  Off-same ms d e same off q h g = Near-at _ _ _ (same q) (off q h g)

  Off-put :
      (m : Mutation) (ms : List Mutation) (d e : Disk)
      → ((q : Text) → e q ≡ put m.path (node_of m.after) d q)
      → Off d0 ms ds d
      → Off d0 (m ∷ ms) ds e
  Off-put m ms d e puts off q h g = elim (Bool-cases (text_eq m.path q)) [
    | inl t ↦ absurd (ground arith)
    | inr t ↦
        Near-at _ _ _ (puts q ∙ put_other m.path q (node_of m.after) d t) (off q (rw t at h) g)
  ]

  -- One mutation in place, and then the rest.
  land_first :
      (m : Mutation) (ms : List Mutation) (w v : World) (r : Committed × World)
      → covers (paths ms) m.path ≡ false
      → ((q : Text) → v.disk q ≡ put m.path (node_of m.after) w.disk q)
      → Lands d0 ms v r
      → Lands d0 (m ∷ ms) w r
  unfolding node_of
  land_first m ms w v (committed, u) apart puts (same, placed) = (
    (λ q h. elim (Bool-cases (text_eq m.path q)) [
      | inl t ↦ absurd (ground arith)
      | inr t ↦ same q (rw t at h) ∙ (puts q ∙ put_other m.path q (node_of m.after) w.disk t)
    ]),
    (same m.path apart ∙ (puts m.path ∙ put_self m.path (node_of m.after) w.disk), placed),
  )
  land_first m ms w v (refused, u) apart puts h = h
  land_first m ms w v (failed clean, u) apart puts h = h

  from_staged :
      (ms : List Mutation) (w v : World) (r : Committed × World)
      → ((q : Text) → v.disk q ≡ w.disk q)
      → Lands d0 ms v r
      → Lands d0 ms w r
  from_staged ms w v (committed, u) same (rest, placed) = ((λ q h. rest q h ∙ same q), placed)
  from_staged ms w v (refused, u) same h = h
  from_staged ms w v (failed clean, u) same h = h

  Puts-true :
      (p : Text) (n : Option Node) (w v : World) (r : Bool × World)
      → Puts p n w r
      → r ≡ (true, v)
      → (q : Text) → v.disk q ≡ put p n w.disk q
  Puts-true p n w v r h e = subst (Puts p n w) e h

  Puts-false :
      (p : Text) (n : Option Node) (w v : World) (r : Bool × World)
      → Puts p n w r
      → r ≡ (false, v)
      → (q : Text) → v.disk q ≡ w.disk q
  Puts-false p n w v r h e = subst (Puts p n w) e h

  planned_node :
      (m : Mutation) (w : World)
      → Known d0 m
      → Puts m.path (node_of m.after) w (apply_state m.after (is_regular_state m.after) w)
  planned_node m w k =
      subst
        (λ (p : Text).
          Puts p (node_of m.after) w (apply_state m.after (is_regular_state m.after) w))
        k.after_path (apply_state-Puts m.after (is_regular_state m.after) w k.plain)

  -- The disk after a call that did nothing.
  after_nothing :
      (w v : World) (b : Bool) → attempt nothing w ≡ (b, v) → (q : Text) → v.disk q ≡ w.disk q
  after_nothing w v b e q =
      ap (λ (d : Disk). d q) (disk_after w v b (attempt nothing w) (nothing-disk w) e)

  undo_after :
      (ms applied : List Mutation) (start w v : World)
      → All (Known d0) applied
      → Off d0 applied ds w.disk
      → ((q : Text) → v.disk q ≡ w.disk q)
      → Lands d0 ms start (undo applied ds v)
  undo_after ms applied start w v a off same =
      Restored-Lands d0 ms start (undo applied ds v)
        (undo-Restored d0 applied ds v a free (Off-same applied w.disk v.disk same off))

  pub apply_each-Lands :
      (ms applied : List Mutation) (w : World)
      → All (Known d0) ms
      → All (Known d0) applied
      → Distinct ms
      → Off d0 applied ds w.disk
      → Lands d0 ms w (apply_each ms applied ds w)
  unfolding apply_each
  apply_each-Lands [] applied w k a apart off =
      branch_ind (Lands d0 [] w) (attempt nothing w) _ _
        (λ v e. ((λ q h. after_nothing w v true e q), tt))
        (λ v e. undo_after [] applied w w v a off (after_nothing w v false e))
  apply_each-Lands (m ∷ ms) applied w k a apart off =
      branch_ind (Lands d0 (m ∷ ms) w) (attempt nothing w) _ _
        (λ w1 e1.
          let n : Option Node = node_of m.after in
          let same : (q : Text) → w1.disk q ≡ w.disk q = after_nothing w w1 true e1 in
          let puts : Puts m.path n w1 (apply_state m.after (is_regular_state m.after) w1) =
            planned_node m w1 k.0 in
          branch_ind (Lands d0 (m ∷ ms) w) (apply_state m.after (is_regular_state m.after) w1) _ _
            (λ w2 e2.
              let put2 : (q : Text) → w2.disk q ≡ put m.path n w.disk q = λ q.
                Puts-true m.path n w1 w2 _ puts e2 q
                ∙ put_over m.path q n w1.disk w.disk (λ t. same q) in
              let off2 : Off d0 (m ∷ applied) ds w2.disk =
                Off-put m applied w.disk w2.disk put2 off in
              branch_ind (Lands d0 (m ∷ ms) w) (attempt nothing w2) _ _
                (λ w3 e3.
                  land_first m ms w w3 _ apart.0 (λ q. after_nothing w2 w3 true e3 q ∙ put2 q)
                    (apply_each-Lands ms (m ∷ applied) w3 k.1 (k.0, a) apart.1
                      (Off-same (m ∷ applied) w2.disk w3.disk (after_nothing w2 w3 true e3) off2)))
                (λ w3 e3.
                  undo_after (m ∷ ms) (m ∷ applied) w w2 w3 (k.0, a) off2
                    (after_nothing w2 w3 false e3)))
            (λ w2 e2.
              undo_after (m ∷ ms) applied w w w2 a off
                (λ q. Puts-false m.path n w1 w2 _ puts e2 q ∙ same q)))
        (λ v e. undo_after (m ∷ ms) applied w w v a off (after_nothing w v false e))

  stage_each-disk : (ms : List Mutation) (w : World) → (stage_each ms w).1.disk ≡ w.disk
  unfolding stage_each
  stage_each-disk [] w = refl
  stage_each-disk (m ∷ ms) w = elim (Bool-cases (is_regular_state m.after)) [
    | inl e ↦ rw e (
        branch_ind (λ (r : Bool × World). r.1.disk ≡ w.disk) (stage_file w) _ _
          (λ v f. stage_each-disk ms v ∙ disk_after w v true (stage_file w) (stage-disk w) f)
          (λ v f. disk_after w v false (stage_file w) (stage-disk w) f))
    | inr e ↦ rw e (stage_each-disk ms w)
  ]

  pub write_all-Lands :
      (ms : List Mutation) (w : World)
      → All (Known d0) ms
      → Distinct ms
      → Off d0 [] ds w.disk
      → Lands d0 ms w (write_all ms ds w)
  unfolding write_all
  write_all-Lands ms w k apart off =
      branch_ind (Lands d0 ms w) (stage_each ms w) _ _
        (λ v e.
          let same : v.disk ≡ w.disk =
            disk_after w v true (stage_each ms w) (stage_each-disk ms w) e in
          from_staged ms w v _ (λ q. ap (λ (d : Disk). d q) same)
            (apply_each-Lands ms [] v k tt apart
              (Off-same [] w.disk v.disk (λ q. ap (λ (d : Disk). d q) same) off)))
        (λ v e.
          let same : v.disk ≡ w.disk =
            disk_after w v false (stage_each ms w) (stage_each-disk ms w) e in
          undo_after ms [] w w v tt off (λ q. ap (λ (d : Disk). d q) same))
