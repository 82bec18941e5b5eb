-- ===== src/Gl/ShaderBuilder/Replace.antt =====
-- `replace` of `juce::String`, as its manual states it: the occurrences of a text are replaced from
-- the left to the right, and the rest is kept.
use phu_audio_lib.Base.{
  ℕ, zero, suc, ◌≤◌, ◌≡◌, refl, ap, ◌∙◌, true, false, Bool-cases, inl, inr, List, [], ◌∷◌, ◌++◌,
  length, length-drop, drop, arith,
}
use phu_audio_lib.Gl.ShaderBuilder.Texts.{
  starts_with, Absent, Clashes, clash-left, starts_with-append, drop-append, append-drop,
  Absent-drop, Absent-append,
}

-- The laws of a `replace` for one text, which is not empty, by another.
pub record ReplaceLaws (replace : List ℕ → List ℕ → List ℕ → List ℕ) : Type 0 where
  pub at_end : (o : ℕ) (os n : List ℕ) → replace [] (o ∷ os) n ≡ []
  pub at_name :
      (o : ℕ) (os n s : List ℕ)
      → starts_with (o ∷ os) s ≡ true
      → replace s (o ∷ os) n ≡ n ++ replace (drop (suc (length os)) s) (o ∷ os) n
  pub elsewhere :
      (o : ℕ) (os n : List ℕ) (c : ℕ) (s : List ℕ)
      → starts_with (o ∷ os) (c ∷ s) ≡ false
      → replace (c ∷ s) (o ∷ os) n ≡ c ∷ replace s (o ∷ os) n

module _ (replace : List ℕ → List ℕ → List ℕ → List ℕ) (laws : ReplaceLaws replace) where
  -- To prove `P` of every text, with what `replace` does at its beginning.
  pub replace_induction {ℓ} :
      (o : ℕ) (os : List ℕ) (P : List ℕ → Type ℓ)
      → P []
      → ((s : List ℕ) → starts_with (o ∷ os) s ≡ true → P (drop (suc (length os)) s) → P s)
      → ((c : ℕ) (s : List ℕ) → starts_with (o ∷ os) (c ∷ s) ≡ false → P s → P (c ∷ s))
      → (k : ℕ) (s : List ℕ) → length s ≤ k
      → P s
  replace_induction o os P e f g k [] h = e
  replace_induction o os P e f g zero (c ∷ s) h = absurd (omega arith)
  replace_induction o os P e f g (suc k) (c ∷ s) h =
      elim (Bool-cases (starts_with (o ∷ os) (c ∷ s))) [
        | inl here ↦ f (c ∷ s) here (
            replace_induction o os P e f g k (drop (length os) s)
              (omega (arith, length-drop (length os) s)))
        | inr not_here ↦ g c s not_here (replace_induction o os P e f g k s (omega arith))
      ]

  -- A text that the new name does not touch stands at the beginning after `replace` only if it did
  -- before.
  pub starts_with-replace :
      (o : ℕ) (os n t s : List ℕ)
      → Clashes t n
      → starts_with t (replace s (o ∷ os) n) ≡ true
      → starts_with t s ≡ true
  unfolding starts_with
  starts_with-replace o os n [] s h p = refl
  starts_with-replace o os n (a ∷ t) [] h p = cc (laws.at_end o os n, p)
  starts_with-replace o os n (a ∷ t) (c ∷ s) h p =
      elim (Bool-cases (starts_with (o ∷ os) (c ∷ s))) [
        | inl here ↦
            let r = replace (drop (length os) s) (o ∷ os) n in
            cc (laws.at_name o os n (c ∷ s) here, clash-left (a ∷ t) n r h.0, p)
        | inr not_here ↦
            ground
              (arith, laws.elsewhere o os n c s not_here, starts_with-replace o os n t s h.1, p)
      ]

  -- `replace` leaves no occurrence of a name that does not touch the new one.
  pub Absent-replace :
      (o : ℕ) (os n s : List ℕ)
      → Clashes os n
      → Clashes n (o ∷ os)
      → Absent (o ∷ os) (replace s (o ∷ os) n)
  unfolding starts_with
  Absent-replace o os n s h k =
      replace_induction o os (λ t. Absent (o ∷ os) (replace t (o ∷ os) n))
        (rw (laws.at_end o os n) tt)
        (λ t here ih. rw (laws.at_name o os n t here) (Absent-append (o ∷ os) n _ k ih))
        (λ c t not_here ih.
          rw (laws.elsewhere o os n c t not_here)
            (ground (arith, starts_with-replace o os n os t h, not_here), ih))
        (length s) s (omega arith)

  -- Without an occurrence it changes nothing, and a name by itself neither.
  pub replace-Absent : (o : ℕ) (os n s : List ℕ) → Absent (o ∷ os) s → replace s (o ∷ os) n ≡ s
  replace-Absent o os n [] h = laws.at_end o os n
  replace-Absent o os n (c ∷ s) h =
      laws.elsewhere o os n c s h.0 ∙ ap (λ t. c ∷ t) (replace-Absent o os n s h.1)

  pub replace_self : (o : ℕ) (os s : List ℕ) → replace s (o ∷ os) (o ∷ os) ≡ s
  replace_self o os s =
      replace_induction o os (λ t. replace t (o ∷ os) (o ∷ os) ≡ t) (laws.at_end o os (o ∷ os))
        (λ t here ih.
          laws.at_name o os (o ∷ os) t here
          ∙ ap (λ r. (o ∷ os) ++ r) ih
          ∙ append-drop (o ∷ os) t here)
        (λ c t not_here ih. laws.elsewhere o os (o ∷ os) c t not_here ∙ ap (λ r. c ∷ r) ih)
        (length s) s (omega arith)

  -- A name that was absent, and whose ends do not touch itself, can be replaced back.
  pub replace-replace :
      (o : ℕ) (os : List ℕ) (m : ℕ) (ms s : List ℕ)
      → Clashes ms (m ∷ ms)
      → Absent (m ∷ ms) s
      → replace (replace s (o ∷ os) (m ∷ ms)) (m ∷ ms) (o ∷ os) ≡ s
  unfolding starts_with
  replace-replace o os m ms s h absent =
      let old = o ∷ os in
      let new = m ∷ ms in
      replace_induction o os (λ t. Absent new t → replace (replace t old new) new old ≡ t)
        (λ a. rw (laws.at_end o os new) (laws.at_end m ms old))
        (λ t here ih a.
          let rest = replace (drop (suc (length os)) t) old new in
          rw (laws.at_name o os new t here) (
            laws.at_name m ms old (new ++ rest) (starts_with-append new rest)
            ∙ rw (drop-append ms rest) (
                ap (λ r. old ++ r) (ih (Absent-drop new (suc (length os)) t a))
                ∙ append-drop old t here)))
        (λ c t not_here ih a. rw (laws.elsewhere o os new c t not_here) (
          laws.elsewhere m ms old c (replace t old new)
            (ground (arith, starts_with-replace o os new ms t h, a.0))
          ∙ ap (λ r. c ∷ r) (ih a.1)))
        (length s) s (omega arith) absent
