-- ===== src/Patch/Found.antt =====
-- The scan of seekPatchSequence over any test of places.
use parrot_coder.Base.{
  ℕ, zero, suc, ◌+◌, ◌≤◌, ◌<◌, ◌≡◌, ◌⊎◌, inl, inr, refl, ap, Bool, true, false, ◌==◌, if◌then◌else◌,
  none, some, Bool-cases, arith,
}
use parrot_coder.Patch.Seek.{Scan, note_match}

last_or_below : (i q : ℕ) → q < suc i → (q ≡ i) ⊎ (q < i)
last_or_below i q h = elim (Bool-cases (q == i)) [
  | inl e ↦ inl (ground arith)
  | inr n ↦ inr (ground arith)
]

add_zero : (i : ℕ) → i + zero ≡ i
add_zero i = omega arith

add_suc : (i n : ℕ) → i + suc n ≡ suc i + n
add_suc i n = omega arith

-- The scan over any test of places.
module _ (occurs : ℕ → Bool) (start : ℕ) where
  -- What the variables say after the places below `i`.
  pub data Seen (i : ℕ) (s : Scan) : Type 0 where
    unseen :
        s.found ≡ none → s.count ≡ 0 → ((q : ℕ) → start ≤ q → q < i → occurs q ≡ false) → Seen i s
    once :
        (p : ℕ)
        → s.found ≡ some p
        → s.count ≡ 1
        → start ≤ p
        → p < i
        → occurs p ≡ true
        → ((q : ℕ) → start ≤ q → q < i → occurs q ≡ true → q ≡ p)
        → Seen i s
    several :
        (p p' : ℕ)
        → 1 < s.count
        → start ≤ p
        → p < p'
        → p' < i
        → occurs p ≡ true
        → occurs p' ≡ true
        → Seen i s

  Seen-skip : (i : ℕ) (s : Scan) → occurs i ≡ false → Seen i s → Seen (suc i) s
  Seen-skip i s miss (unseen f c a) =
      unseen f c (λ q h k. elim (last_or_below i q k) [ inl e ↦ rw e miss | inr l ↦ a q h l ])
  Seen-skip i s miss (once p f c h k y u) = once p f c h (omega arith) y (λ q m l o.
      elim (last_or_below i q l) [ inl e ↦ ground (arith, ap occurs e) | inr b ↦ u q m b o ])
  Seen-skip i s miss (several p p' c h k l y z) = several p p' c h k (omega arith) y z

  Seen-note :
      (i : ℕ) (s : Scan) → start ≤ i → occurs i ≡ true → Seen i s → Seen (suc i) (note_match i s)
  Seen-note i s b yes' (unseen f c a) =
      once i (rw f refl) (omega arith) b (omega arith) yes'
        (λ q m l o. elim (last_or_below i q l) [ inl e ↦ e | inr k ↦ ground (arith, a q m k) ])
  Seen-note i s b yes' (once p f c h k y u) = several p i (omega arith) h k (omega arith) y yes'
  Seen-note i s b yes' (several p p' c h k l y z) = several p p' (omega arith) h k (omega arith) y z

  -- The scan from line `i` on, over a test of places.
  unfoldable pub scan : ℕ → ℕ → Scan → Scan
  scan zero i s = s
  scan (suc n) i s = scan n (suc i) (if occurs i then note_match i s else s)

  pub scan-Seen : (n i : ℕ) (s : Scan) → start ≤ i → Seen i s → Seen (i + n) (scan n i s)
  unfolding scan
  scan-Seen zero i s h seen = rw (add_zero i) seen
  scan-Seen (suc n) i s h seen = elim (Bool-cases (occurs i)) [
    | inl y ↦
        rw (add_suc i n, y)
          (scan-Seen n (suc i) (note_match i s) (omega arith) (Seen-note i s h y seen))
    | inr y ↦ rw (add_suc i n, y) (scan-Seen n (suc i) s (omega arith) (Seen-skip i s y seen))
  ]
