-- ===== src/Audio/Fifo/Samples/Channels.antt =====
-- audio/AudioSampleFifo.h: the loops over the channels.
use phu_audio_lib.Base.{
  ℕ, zero, suc, ◌-◌, ◌≡◌, refl, sym, ap, ◌∙◌, arith, ltb, pos, pos_part, ◌-ℤ◌, ltb_ℤ, Bool, true,
  false, List, [], ◌∷◌, map, length, drop, All, if◌then◌else◌,
}
use phu_audio_lib.Audio.Fifo.Samples.{each_channel}

module _ {ℓ κ} {A : Type ℓ} {B : Type κ} where
  pub each-id :
      (f : A → B → A) (xs : List A) (ys : List B)
      → ((x : A) (y : B) → f x y ≡ x)
      → each_channel f xs ys ≡ xs
  unfolding each_channel
  each-id f [] ys h = refl
  each-id f (x ∷ xs) [] h = refl
  each-id f (x ∷ xs) (y ∷ ys) h = rw (h x y, each-id f xs ys h) refl

  pub each-each :
      (f g : A → B → A) (xs : List A) (ys : List B)
      → each_channel g (each_channel f xs ys) ys ≡ each_channel (λ x y. g (f x y) y) xs ys
  unfolding each_channel
  each-each f g [] ys = refl
  each-each f g (x ∷ xs) [] = refl
  each-each f g (x ∷ xs) (y ∷ ys) = rw (each-each f g xs ys) refl

  pub map-each {μ} :
      {C : Type μ} (P : A → Type 0) (Q : B → Type 0) (f : A → B → A) (g : C → B → C) (h h' : A → C)
      (xs : List A) (ys : List B)
      → ((x : A) (y : B) → P x → Q y → h' (f x y) ≡ g (h x) y)
      → length ys ≡ length xs
      → All P xs
      → All Q ys
      → map h' (each_channel f xs ys) ≡ each_channel g (map h xs) ys
  unfolding each_channel
  map-each P Q f g h h' [] ys e el p q = refl
  map-each P Q f g h h' (x ∷ xs) [] e el p q = absurd (omega (arith, el))
  map-each P Q f g h h' (x ∷ xs) (y ∷ ys) e el p q =
      rw (e x y p.0 q.0, map-each P Q f g h h' xs ys e (omega (arith, el)) p.1 q.1) refl

  pub each-map {μ} :
      {C : Type μ} (Q : B → Type 0) (f : A → B → A) (g : A → C → A) (h : B → C) (xs : List A)
      (ys : List B)
      → ((x : A) (y : B) → Q y → f x y ≡ g x (h y))
      → All Q ys
      → each_channel f xs ys ≡ each_channel g xs (map h ys)
  unfolding each_channel
  each-map Q f g h [] ys e q = refl
  each-map Q f g h (x ∷ xs) [] e q = refl
  each-map Q f g h (x ∷ xs) (y ∷ ys) e q = rw (e x y q.0, each-map Q f g h xs ys e q.1) refl

-- Two loops over the channels, each of which is skipped where its block is empty.
pub two_loops {ℓ κ} :
    {A : Type ℓ} {B : Type κ} (b c : Bool) (f g : A → B → A) (xs : List A) (ys : List B)
    → (b ≡ false → (x : A) (y : B) → f x y ≡ x)
    → (c ≡ false → (x : A) (y : B) → g x y ≡ x)
    → (if c
        then each_channel g (if b then each_channel f xs ys else xs) ys
        else (if b then each_channel f xs ys else xs))
      ≡ each_channel (λ x y. g (f x y) y) xs ys
two_loops false false f g xs ys hf hg =
    sym (each-id (λ x y. g (f x y) y) xs ys (λ x y. hg refl (f x y) y ∙ hf refl x y))
two_loops false true f g xs ys hf hg =
    ap (λ zs. each_channel g zs ys) (sym (each-id f xs ys (hf refl))) ∙ each-each f g xs ys
two_loops true false f g xs ys hf hg =
    sym (each-id g (each_channel f xs ys) ys (hg refl)) ∙ each-each f g xs ys
two_loops true true f g xs ys hf hg = each-each f g xs ys

pub positive_sub : (a n : ℕ) → ltb_ℤ (pos 0) (pos a -ℤ pos n) ≡ ltb n a
unfolding ◌-ℤ◌
positive_sub a n = ground arith

pub part_sub : (a n : ℕ) → pos_part (pos a -ℤ pos n) ≡ a - n
unfolding ◌-ℤ◌
part_sub a n = ground arith

pub nil_of_length {ℓ} : {A : Type ℓ} (xs : List A) → length xs ≡ 0 → xs ≡ []
nil_of_length [] h = refl
nil_of_length (x ∷ xs) h = absurd (omega (arith, h))

pub drop-nil {ℓ} : {A : Type ℓ} (n : ℕ) → drop {A = A} n [] ≡ []
drop-nil zero = refl
drop-nil (suc n) = refl

pub none_left : (n : ℕ) → ltb 0 n ≡ false → n ≡ 0
none_left n h = ground arith
