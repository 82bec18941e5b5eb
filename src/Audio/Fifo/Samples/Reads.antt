-- ===== src/Audio/Fifo/Samples/Reads.antt =====
-- audio/AudioSampleFifo.h: places of a ring buffer, read behind a copy into it.
use phu_audio_lib.Base.{
  ℕ, zero, suc, ◌+◌, ◌≤◌, ◌<◌, ◌≡◌, ◌≢◌, ◌⊎◌, inl, inr, refl, sym, ap, ◌∙◌, arith, ltb, Bool-cases,
  Option, none, some, List, [], ◌∷◌, ◌++◌, length, take, drop, blit, get_or, get_elem?, All,
  length-blit, get_elem?-blit_below, get_elem?-blit_above,
}
use phu_audio_lib.Audio.Fifo.{span}
use phu_audio_lib.Audio.Fifo.Laws.{read_at}

abbrev or_default {ℓ} : {A : Type ℓ} → A → Option A → A
or_default d none = d
or_default d (some x) = x

get_or-get_elem? {ℓ} :
    {A : Type ℓ} (xs : List A) (i : ℕ) (d : A) → get_or xs i d ≡ or_default d (get_elem? xs i)
get_or-get_elem? [] i d = refl
get_or-get_elem? (x ∷ xs) zero d = refl
get_or-get_elem? (x ∷ xs) (suc i) d = get_or-get_elem? xs i d

pub blit-nil {ℓ} : {A : Type ℓ} (xs : List A) (i : ℕ) → blit xs i [] ≡ xs
blit-nil [] i = refl
blit-nil (x ∷ xs) zero = refl
blit-nil (x ∷ xs) (suc i) = rw (blit-nil xs i)

lt-or-le : (a b : ℕ) → (a < b) ⊎ (b ≤ a)
lt-or-le a b = elim (Bool-cases (ltb a b)) [
  | inl below ↦ inl (ground arith)
  | inr above ↦ inr (ground arith)
]

outside_span : (i start n : ℕ) → All (λ j. i ≢ j) (span start n) → (i < start) ⊎ (start + n ≤ i)
outside_span i start zero h = elim (lt-or-le i start) [
  | inl below ↦ inl below
  | inr above ↦ inr (omega arith)
]
outside_span i start (suc n) (h, g) = elim (outside_span i (suc start) n g) [
  | inl below ↦ inl (omega arith)
  | inr above ↦ inr (omega arith)
]

module _ {ℓ} {A : Type ℓ} (d : A) where
  get_or-blit_outside :
      (buf : List A) (start : ℕ) (src : List A) (i : ℕ)
      → (i < start) ⊎ (start + length src ≤ i)
      → get_or (blit buf start src) i d ≡ get_or buf i d
  get_or-blit_outside buf start src i (inl below) =
      get_or-get_elem? (blit buf start src) i d
      ∙ ap (or_default d) (get_elem?-blit_below buf start src i below)
      ∙ sym (get_or-get_elem? buf i d)
  get_or-blit_outside buf start src i (inr above) =
      get_or-get_elem? (blit buf start src) i d
      ∙ ap (or_default d) (get_elem?-blit_above buf start src i above)
      ∙ sym (get_or-get_elem? buf i d)

  -- Places that are none of those written read as before.
  pub read_at-blit_outside :
      (buf : List A) (start : ℕ) (src : List A) (is : List ℕ)
      → All (λ i. All (λ j. i ≢ j) (span start (length src))) is
      → read_at d (blit buf start src) is ≡ read_at d buf is
  read_at-blit_outside buf start src [] h = refl
  read_at-blit_outside buf start src (i ∷ is) (h, g) =
      rw
        (
          get_or-blit_outside buf start src i (outside_span i start (length src) h),
          read_at-blit_outside buf start src is g,
        )
        refl

  drop-lt : (xs : List A) (i : ℕ) → i < length xs → drop i xs ≡ get_or xs i d ∷ drop (suc i) xs
  drop-lt [] i h = absurd (omega arith)
  drop-lt (x ∷ xs) zero h = refl
  drop-lt (x ∷ xs) (suc i) h = drop-lt xs i (omega arith)

  -- A block of places reads as a block of the buffer.
  pub read_at-span :
      (buf : List A) (start n : ℕ)
      → start + n ≤ length buf
      → read_at d buf (span start n) ≡ take n (drop start buf)
  read_at-span buf start zero h = refl
  read_at-span buf start (suc n) h =
      rw (drop-lt buf start (omega arith), read_at-span buf (suc start) n (omega arith)) refl

  take-drop-blit :
      (buf : List A) (start : ℕ) (src : List A)
      → start + length src ≤ length buf
      → take (length src) (drop start (blit buf start src)) ≡ src
  take-drop-blit [] zero [] h = refl
  take-drop-blit [] zero (v ∷ src) h = absurd (omega arith)
  take-drop-blit [] (suc start) src h = absurd (omega arith)
  take-drop-blit (x ∷ xs) zero [] h = refl
  take-drop-blit (x ∷ xs) zero (v ∷ src) h = rw (take-drop-blit xs zero src (omega arith)) refl
  take-drop-blit (x ∷ xs) (suc start) src h = take-drop-blit xs start src (omega arith)

  pub read_at-blit-span :
      (buf : List A) (start : ℕ) (src : List A)
      → start + length src ≤ length buf
      → read_at d (blit buf start src) (span start (length src)) ≡ src
  read_at-blit-span buf start src h =
      read_at-span (blit buf start src) start (length src)
        (omega (arith, length-blit buf start src))
      ∙ take-drop-blit buf start src h

pub take-nil {ℓ} : {A : Type ℓ} (n : ℕ) → take {A = A} n [] ≡ []
take-nil zero = refl
take-nil (suc n) = refl

pub take-add {ℓ} :
    {A : Type ℓ} (m n : ℕ) (xs : List A) → take m xs ++ take n (drop m xs) ≡ take (m + n) xs
take-add zero n xs = ap (λ k. take k xs) (omega arith)
take-add (suc m) n [] = take-nil n ∙ sym (take-nil (suc m + n))
take-add (suc m) n (x ∷ xs) =
    let e : suc m + n ≡ suc (m + n) = omega arith in rw (e, take-add m n xs) refl

pub blit-append {ℓ} :
    {A : Type ℓ} (dst : List A) (i : ℕ) (xs : List A) (k : ℕ) (ys : List A)
    → k ≡ i + length xs
    → blit (blit dst i xs) k ys ≡ blit dst i (xs ++ ys)
blit-append [] i xs k ys e = refl
blit-append (z ∷ dst) (suc i) xs zero ys e = absurd (omega (arith, e))
blit-append (z ∷ dst) (suc i) xs (suc k) ys e =
    rw (blit-append dst i xs k ys (omega (arith, e))) refl
blit-append (z ∷ dst) zero [] zero ys e = refl
blit-append (z ∷ dst) zero [] (suc k) ys e = absurd (omega (arith, e))
blit-append (z ∷ dst) zero (v ∷ xs) zero ys e = absurd (omega (arith, e))
blit-append (z ∷ dst) zero (v ∷ xs) (suc k) ys e =
    rw (blit-append dst 0 xs k ys (omega (arith, e))) refl

pub All-left {ℓ} : {A : Type ℓ} (P : A → Type 0) (xs ys : List A) → All P (xs ++ ys) → All P xs
All-left P [] ys h = tt
All-left P (x ∷ xs) ys h = (h.0, All-left P xs ys h.1)

pub All-right {ℓ} : {A : Type ℓ} (P : A → Type 0) (xs ys : List A) → All P (xs ++ ys) → All P ys
All-right P [] ys h = h
All-right P (x ∷ xs) ys h = All-right P xs ys h.1

pub All-mono {ℓ} :
    {A : Type ℓ} (P Q : A → Type 0) (xs : List A) → ((x : A) → P x → Q x) → All P xs → All Q xs
All-mono P Q [] f h = tt
All-mono P Q (x ∷ xs) f h = (f x h.0, All-mono P Q xs f h.1)

-- The places of a span are none of those of a span in front of it.
pub spans_apart :
    (start n first k : ℕ)
    → first + k ≤ start
    → All (λ i. All (λ j. i ≢ j) (span first k)) (span start n)
spans_apart start zero first k h = tt
spans_apart start (suc n) first k h =
    (above start first k h, spans_apart (suc start) n first k (omega arith))
  where
    above : (i first k : ℕ) → first + k ≤ i → All (λ j. i ≢ j) (span first k)
    above i first zero h = tt
    above i first (suc k) h = (λ e. omega (arith, e), above i (suc first) k (omega arith))
