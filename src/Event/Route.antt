-- ===== src/Event/Route.antt =====
-- The climb from a session to its ancestors ends, and repeats no session.
use parrot_coder.Base.{
  ℕ, zero, suc, ◌≤◌, ◌<◌, ◌≡◌, ◌⊎◌, refl, ap, sym, ◌∙◌, inl, inr, List, [], ◌∷◌, Text, true, false,
  if◌then◌else◌, length, Option, none, some, text_eq, text_eq_refl, text_eq_iff, is_empty, arith,
  Bool-cases, Option-cases,
}
use parrot_coder.Event.Broker.{seen, next_parent, climb, ancestry}

-- How many of the sessions are not seen yet.
unseen : List Text → List Text → ℕ
unseen route [] = 0
unseen route (k ∷ ks) = let rest = unseen route ks in if seen route k then rest else suc rest

unseen-le : (route ks : List Text) (p : Text) → unseen (p ∷ route) ks ≤ unseen route ks
unfolding unseen
unseen-le route [] p = omega arith
unseen-le route (k ∷ ks) p = ground (arith, unseen-le route ks p)

-- Seeing one more of the sessions leaves fewer.
unseen-lt :
    (route ks : List Text) (p : Text)
    → seen ks p ≡ true
    → seen route p ≡ false
    → unseen (p ∷ route) ks < unseen route ks
unfolding unseen
unseen-lt route [] p h k = absurd (cc)
unseen-lt route (x ∷ ks) p h k = elim (Bool-cases (text_eq x p)) [
  | inl e ↦
      let same : x ≡ p = (text_eq_iff x p).0 e in
      rw same (ground (arith, k, text_eq_refl p, unseen-le route ks p))
  | inr e ↦
      let there : seen ks p ≡ true = ground arith in
      ground (arith, unseen-lt route ks p there k, unseen-le route ks p)
]

module _ (parent : Text → Option Text) where
  -- From a session the route goes on to its parent, which is named and new, until there is none.
  abbrev pub IsClimb : Text → List Text → List Text → Type 0
  IsClimb current route [] =
      (is_empty current ≡ true)
      ⊎ ((p : Text) → parent current ≡ some p → (is_empty p ≡ true) ⊎ (seen route p ≡ true))
  IsClimb current route (p ∷ ps) =
      (parent current ≡ some p)
      × (is_empty p ≡ false)
      × (seen route p ≡ false)
      × IsClimb p (p ∷ route) ps

  no_parent :
      (o : Option Text) (route : List Text)
      → next_parent o route ≡ none
      → (p : Text) → o ≡ some p
      → (is_empty p ≡ true) ⊎ (seen route p ≡ true)
  unfolding next_parent
  no_parent none route h p e = absurd (cc)
  no_parent (some q) route h p e =
      let same : q ≡ p = cc in
      elim (Bool-cases (is_empty q)) [
        | inl a ↦ inl (ap is_empty (sym same) ∙ a)
        | inr a ↦ elim (Bool-cases (seen route q)) [
          | inl b ↦ inr (ap (seen route) (sym same) ∙ b)
          | inr b ↦ absurd (ground (arith, a, b))
        ]
      ]

  next-parent :
      (o : Option Text) (route : List Text) (p : Text)
      → next_parent o route ≡ some p
      → (o ≡ some p) × (is_empty p ≡ false) × (seen route p ≡ false)
  unfolding next_parent
  next-parent none route p h = absurd (cc)
  next-parent (some q) route p h = (ground arith, ground arith, ground arith)

  climb-IsClimb :
      (sessions : List Text) (n : ℕ) (current : Text) (route : List Text)
      → ((s p : Text) → parent s ≡ some p → seen sessions p ≡ true)
      → unseen route sessions < n
      → (rest : List Text) × (climb parent n current route ≡ some rest) × IsClimb current route rest
  unfolding climb
  climb-IsClimb sessions zero current route closed h = absurd (omega arith)
  climb-IsClimb sessions (suc n) current route closed h = elim (Bool-cases (is_empty current)) [
    | inl e ↦ ([], rw e refl, inl e)
    | inr e ↦ elim (Option-cases (next_parent (parent current) route)) [
      | inl q ↦ ([], rw (climb, e, q) refl, inr (no_parent (parent current) route q))
      | inr (p, q) ↦
          let (is, named, new) = next-parent (parent current) route p q in
          let (rest, f, ok) =
            climb-IsClimb sessions n p (p ∷ route) closed
              (omega (arith, unseen-lt route sessions p (closed current p is) new)) in
          (p ∷ rest, rw (climb, e, q, f) refl, (is, named, new, ok))
    ]
  ]

  unseen-length : (route ks : List Text) → unseen route ks ≤ length ks
  unfolding unseen
  unseen-length route [] = omega arith
  unseen-length route (k ∷ ks) = ground (arith, unseen-length route ks)

  -- Where all parents are among some sessions, one more round than there are sessions is enough for the climb
  -- from any session: the route starts with it, each next one is the parent of the one before, named and not
  -- on the route yet, and it ends at a session that has no such parent.
  pub ancestry-IsClimb :
      (sessions : List Text) (origin : Text)
      → ((s p : Text) → parent s ≡ some p → seen sessions p ≡ true)
      → (rest : List Text) × (ancestry parent (suc (length sessions)) origin ≡ some (origin ∷ rest))
        × IsClimb origin (origin ∷ []) rest
  unfolding ancestry
  ancestry-IsClimb sessions origin closed =
      let (rest, f, ok) =
        climb-IsClimb sessions (suc (length sessions)) origin (origin ∷ []) closed
          (omega (arith, unseen-length (origin ∷ []) sessions)) in
      (rest, rw (ancestry, f) refl, ok)
