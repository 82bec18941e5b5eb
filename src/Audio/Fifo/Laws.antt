-- ===== src/Audio/Fifo/Laws.antt =====
-- Places of a fifo in the buffer behind it: reading a list of places, and what writes leave of it.
use phu_audio_lib.Base.{
  ℕ, zero, suc, ◌<◌, ◌≡◌, ◌≢◌, refl, ap, arith, ◌∙◌, List, [], ◌∷◌, ◌++◌, map, length,
  length-append, take, drop, get_or, set, All, get_or-set,
}
use phu_audio_lib.Audio.Fifo.{Blocks, block_size, span, places}

module _ {ℓ} {A : Type ℓ} (default : A) where
  abbrev pub read_at : List A → List ℕ → List A
  read_at buffer js = map (λ i. get_or buffer i default) js

  pub read_at-append :
      (buffer : List A) (is js : List ℕ)
      → read_at buffer (is ++ js) ≡ read_at buffer is ++ read_at buffer js
  read_at-append buffer [] js = refl
  read_at-append buffer (i ∷ is) js = rw (read_at-append buffer is js)

  pub read_at-drop :
      (buffer : List A) (n : ℕ) (is : List ℕ)
      → read_at buffer (drop n is) ≡ drop n (read_at buffer is)
  read_at-drop buffer zero is = refl
  read_at-drop buffer (suc n) [] = refl
  read_at-drop buffer (suc n) (i ∷ is) = read_at-drop buffer n is

  pub read_at-take :
      (buffer : List A) (n : ℕ) (is : List ℕ)
      → read_at buffer (take n is) ≡ take n (read_at buffer is)
  read_at-take buffer zero is = refl
  read_at-take buffer (suc n) [] = refl
  read_at-take buffer (suc n) (i ∷ is) = rw (read_at-take buffer n is)

  pub read_at-set :
      (buffer : List A) (slot : ℕ) (v : A) (is : List ℕ)
      → slot < length buffer
      → All (λ i. i ≢ slot) is
      → read_at (set buffer slot v) is ≡ read_at buffer is
  read_at-set buffer slot v [] h g = refl
  read_at-set buffer slot v (i ∷ is) h g =
      let same : get_or (set buffer slot v) i default ≡ get_or buffer i default =
        get_or-set buffer slot i v default h ∙ ground arith in
      rw (same, read_at-set buffer slot v is h g.1)

pub length-span : (start n : ℕ) → length (span start n) ≡ n
length-span start zero = refl
length-span start (suc n) = ap suc (length-span (suc start) n)

pub get_or-inside {ℓ} :
    {A : Type ℓ} (xs : List A) (i : ℕ) (a b : A) → i < length xs → get_or xs i a ≡ get_or xs i b
get_or-inside [] i a b h = absurd (omega arith)
get_or-inside (x ∷ xs) zero a b h = refl
get_or-inside (x ∷ xs) (suc i) a b h = get_or-inside xs i a b (omega arith)

pub length-places : (b : Blocks) → length (places b) ≡ block_size b
length-places b =
    length-append (span b.start_index1 b.block_size1) (span b.start_index2 b.block_size2)
    ∙ omega
        (arith, length-span b.start_index1 b.block_size1, length-span b.start_index2 b.block_size2)
