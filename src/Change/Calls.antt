-- ===== src/Change/Calls.antt =====
-- What the calls on a disk leave alone, and what they put in place.
use parrot_coder.Base.{
  ◌≡◌, refl, inl, inr, List, [], ◌∷◌, Text, Bool, true, false, if◌then◌else◌, any, Option, none,
  some, text_eq, text_eq_refl, Bool-cases,
}
use parrot_coder.Change.Disk.{
  Node, Disk, put, World, Call, set_node, with_fault, attempt, nothing, is_free, is_directory,
  remove_node, mkdir, rename_staged, symlink, stage_file,
}

-- The list has the path.
abbrev pub covers : List Text → Text → Bool
covers L q = any (λ x. text_eq x q) L

-- What holds when the call fails before it starts, and after its work, holds of the call.
pub attempt_ind {ℓ} :
    (P : Bool × World → Type ℓ) (call : Call) (w : World)
    → ((fs : List Bool) → P (false, record w { faults = fs }))
    → ((fs : List Bool) → P (call (record w { faults = fs })))
    → P (attempt call w)
unfolding attempt
attempt_ind P call w fails works = go w.faults (works w.faults)
  where
    go : (fs : List Bool) → P (call w) → P (with_fault fs call w)
    go [] last = last
    go (true ∷ fs) last = fails fs
    go (false ∷ fs) last = works fs

-- A call that may fail and does nothing.
pub nothing-disk : (w : World) → (attempt nothing w).1.disk ≡ w.disk
nothing-disk w = attempt_ind (λ r. r.1.disk ≡ w.disk) nothing w (λ fs. refl) (λ fs. refl)

pub stage-disk : (w : World) → (stage_file w).1.disk ≡ w.disk
unfolding stage_file
stage-disk w = nothing-disk w

pub put_other : (p q : Text) (n : Option Node) (d : Disk) → text_eq p q ≡ false → put p n d q ≡ d q
put_other p q n d e = rw e refl

pub put_self : (p : Text) (n : Option Node) (d : Disk) → put p n d p ≡ n
put_self p n d = rw (text_eq_refl p) refl

-- Only the node at the path may change.
abbrev pub OnlyAt : Text → World → Bool × World → Type 0
OnlyAt p w r = (q : Text) → text_eq p q ≡ false → r.1.disk q ≡ w.disk q

-- Either nothing changes and the call reports an error, or the node is put in place.
abbrev pub Puts : Text → Option Node → World → Bool × World → Type 0
Puts p n w (true, w') = (q : Text) → w'.disk q ≡ put p n w.disk q
Puts p n w (false, w') = (q : Text) → w'.disk q ≡ w.disk q

pub remove-Puts : (p : Text) (w : World) → Puts p none w (remove_node p w)
unfolding remove_node
remove-Puts p w =
    attempt_ind (Puts p none w) (λ v. (true, set_node p none v)) w (λ fs q. refl) (λ fs q. refl)

pub rename-Puts : (p : Text) (n : Node) (w : World) → Puts p (some n) w (rename_staged p n w)
unfolding rename_staged
rename-Puts p n w =
    attempt_ind (Puts p (some n) w)
      (λ v. if is_directory (v.disk p) then (false, v) else (true, set_node p (some n) v)) w
      (λ fs q. refl)
      (λ fs. elim (Bool-cases (is_directory (w.disk p))) [
        | inl e ↦ rw e (λ q. refl)
        | inr e ↦ rw e (λ q. refl)
      ])

pub mkdir-Puts : (p : Text) (w : World) → Puts p (some Node.directory) w (mkdir p w)
unfolding mkdir
mkdir-Puts p w =
    attempt_ind (Puts p (some Node.directory) w)
      (λ v. if is_free (v.disk p) then (true, set_node p (some Node.directory) v) else (false, v)) w
      (λ fs q. refl)
      (λ fs. elim (Bool-cases (is_free (w.disk p))) [
        | inl e ↦ rw e (λ q. refl)
        | inr e ↦ rw e (λ q. refl)
      ])

pub symlink-Puts : (p : Text) (n : Node) (w : World) → Puts p (some n) w (symlink p n w)
unfolding symlink
symlink-Puts p n w =
    attempt_ind (Puts p (some n) w)
      (λ v. if is_free (v.disk p) then (true, set_node p (some n) v) else (false, v)) w
      (λ fs q. refl)
      (λ fs. elim (Bool-cases (is_free (w.disk p))) [
        | inl e ↦ rw e (λ q. refl)
        | inr e ↦ rw e (λ q. refl)
      ])
