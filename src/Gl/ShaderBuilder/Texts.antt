-- ===== src/Gl/ShaderBuilder/Texts.antt =====
-- Where one text stands in another, for `replace` of `juce::String`.
use phu_audio_lib.Base.{
  ℕ, zero, suc, ◌≡◌, refl, Bool, true, false, ◌&&◌, ◌==◌, List, [], ◌∷◌, ◌++◌, length, drop,
  if◌then◌else◌, arith,
}

unfoldable pub starts_with : List ℕ → List ℕ → Bool
starts_with [] s = true
starts_with (o ∷ os) [] = false
starts_with (o ∷ os) (c ∷ s) = o == c && starts_with os s

-- The first text stands nowhere in the second.
abbrev pub Absent : List ℕ → List ℕ → Type 0
Absent name [] = Unit {0}
Absent name (c ∷ s) = (starts_with name (c ∷ s) ≡ false) × Absent name s

-- The two texts differ at a place that both have.
unfoldable pub clash : List ℕ → List ℕ → Bool
clash [] t = false
clash (o ∷ os) [] = false
clash (o ∷ os) (c ∷ cs) = if o == c then clash os cs else true

-- Every end of the first text clashes with the second.
abbrev pub Clashes : List ℕ → List ℕ → Type 0
Clashes [] t = Unit {0}
Clashes (o ∷ os) t = (clash (o ∷ os) t ≡ true) × Clashes os t

pub clash-left : (o n t : List ℕ) → clash o n ≡ true → starts_with o (n ++ t) ≡ false
unfolding clash starts_with
clash-left [] n t h = absurd (cc)
clash-left (o ∷ os) [] t h = absurd (cc)
clash-left (o ∷ os) (c ∷ cs) t h = ground (arith, clash-left os cs t)

pub clash-right : (o n t : List ℕ) → clash n o ≡ true → starts_with o (n ++ t) ≡ false
unfolding clash starts_with
clash-right o [] t h = absurd (cc)
clash-right [] (c ∷ cs) t h = absurd (cc)
clash-right (o ∷ os) (c ∷ cs) t h = ground (arith, clash-right os cs t)

pub starts_with-append : (o t : List ℕ) → starts_with o (o ++ t) ≡ true
unfolding starts_with
starts_with-append [] t = refl
starts_with-append (o ∷ os) t = ground (arith, starts_with-append os t)

pub drop-append : (o t : List ℕ) → drop (length o) (o ++ t) ≡ t
drop-append [] t = refl
drop-append (o ∷ os) t = drop-append os t

pub append-drop : (o s : List ℕ) → starts_with o s ≡ true → o ++ drop (length o) s ≡ s
unfolding starts_with
append-drop [] s h = refl
append-drop (o ∷ os) [] h = absurd (cc)
append-drop (o ∷ os) (c ∷ s) h = ground (arith, append-drop os s)

pub Absent-drop : (name : List ℕ) (n : ℕ) (s : List ℕ) → Absent name s → Absent name (drop n s)
Absent-drop name zero s h = h
Absent-drop name (suc n) [] h = tt
Absent-drop name (suc n) (c ∷ s) h = Absent-drop name n s h.1

-- A text that the ends of `n` clash with is absent from `n ++ t` if it is from `t`.
pub Absent-append : (name n t : List ℕ) → Clashes n name → Absent name t → Absent name (n ++ t)
Absent-append name [] t h a = a
Absent-append name (c ∷ cs) t h a = (clash-right name (c ∷ cs) t h.0, Absent-append name cs t h.1 a)
