-- ===== src/Queue/Keys.antt =====
-- Which file and lock names coincide.
use parrot_coder.Base.{
  ℕ, ◌≡◌, ◌≢◌, refl, sym, ap, ◌∙◌, false, [], ◌∷◌, ◌++◌, some, Text, codes, text_eq, text_eq_iff,
  arith, Bool-cases, inl, inr,
}
use parrot_coder.Queue.Names.{file_name, lock_name, jsonl, cut_suffix, cut_suffix-append}

-- The last byte of a text, 0 for the empty one.
last_byte : Text → ℕ
last_byte [] = 0
last_byte (c ∷ []) = c
last_byte (c ∷ b ∷ s) = last_byte (b ∷ s)

last_byte-append : (s : Text) (b : ℕ) (t : Text) → last_byte (s ++ b ∷ t) ≡ last_byte (b ∷ t)
unfolding last_byte
last_byte-append [] b t = refl
last_byte-append (c ∷ []) b t = refl
last_byte-append (c ∷ d ∷ s) b t = last_byte-append (d ∷ s) b t

last_byte-lock_name : (k : Text) → last_byte (lock_name k) ≡ b'k'
unfolding last_byte
last_byte-lock_name k = last_byte-append (file_name k) b'.' (codes "lock")

last_byte-file_name : (k : Text) → last_byte (file_name k) ≡ b'l'
unfolding last_byte
last_byte-file_name k = last_byte-append k b'.' (codes "jsonl")

ne→text_eq : (s t : Text) → s ≢ t → text_eq s t ≡ false
ne→text_eq s t n = elim (Bool-cases (text_eq s t)) [
  | inl e ↦ absurd (n ((text_eq_iff s t).0 e))
  | inr e ↦ e
]

-- A lock is never the file of a queue.
pub lock_ne_file : (j k : Text) → text_eq (lock_name j) (file_name k) ≡ false
lock_ne_file j k =
    ne→text_eq _ _ λ e. omega (arith, ap last_byte e, last_byte-lock_name j, last_byte-file_name k)

pub file_ne_lock : (j k : Text) → text_eq (file_name k) (lock_name j) ≡ false
file_ne_lock j k =
    ne→text_eq _ _ λ e. omega (arith, ap last_byte e, last_byte-lock_name j, last_byte-file_name k)

some_inj {ℓ} : {A : Type ℓ} {a b : A} → some a ≡ some b → a ≡ b
some_inj e = cc

pub file_name-injective : (j k : Text) → file_name j ≡ file_name k → j ≡ k
file_name-injective j k e =
    some_inj (sym (cut_suffix-append j jsonl) ∙ ap (cut_suffix jsonl) e ∙ cut_suffix-append k jsonl)

pub file_ne_file : (j k : Text) → j ≢ k → text_eq (file_name j) (file_name k) ≡ false
file_ne_file j k n = ne→text_eq _ _ λ e. n (file_name-injective j k e)
