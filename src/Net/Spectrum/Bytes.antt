-- ===== src/Net/Spectrum/Bytes.antt =====
-- The bytes of a spectrum, one by one: what the sender makes of its magnitudes, and the receiver of them.
use native.Mathlib.Decide.{dec_le}
use phu_audio_lib.Base.{
  ℕ, zero, suc, ◌+◌, ◌≤◌, ◌<◌, min, ◌≡◌, refl, ap, ◌∙◌, ℤ, pos, pos_part, ◌-ℤ◌, min_ℤ, leb_ℤ, leb,
  true, false, some, List, [], ◌∷◌, ◌++◌, length, get_elem?, get_or, length-blit, length-append,
  length-replicate, get_elem?-blit_inside, replicate, if◌then◌else◌, Bool-cases, inl, inr, arith,
}
use phu_audio_lib.Double.{Double}
use phu_audio_lib.Net.Spectrum.{
  quantize, quantize_from, average_bin, average_from, restore, max_spectrum_bins, compress_spectrum,
  decompress_spectrum,
}

-- The bytes of the spectrum that a sender makes of `n` magnitudes.
abbrev pub bytes_of : (F : Double) → (F.Carrier → F.Carrier) → List F.Carrier → ℕ → List ℕ
bytes_of F log10 magnitudes n =
    compress_spectrum F log10 magnitudes (pos n) (replicate max_spectrum_bins 0)
      (pos (min n max_spectrum_bins))

-- The byte of the output bin `i` where a sender has `n` magnitudes.
abbrev pub bin_byte : (F : Double) → (F.Carrier → F.Carrier) → List F.Carrier → ℕ → ℕ → ℕ
bin_byte F log10 magnitudes n i =
    if leb n max_spectrum_bins
    then quantize F log10 (get_or magnitudes i (F.of_int (pos 0)))
    else average_bin F log10 (pos n) (F.div (F.of_int (pos n)) (F.of_int (pos max_spectrum_bins)))
        magnitudes i

pub output_bins : (n : ℕ) → min_ℤ (pos n) (pos max_spectrum_bins) ≡ pos (min n max_spectrum_bins)
output_bins n = ground arith

pub length-compress_spectrum :
    (F : Double) (log10 : F.Carrier → F.Carrier) (input : List F.Carrier) (n k : ℕ)
    (output : List ℕ)
    → length (compress_spectrum F log10 input (pos n) output (pos k)) ≡ length output
unfolding compress_spectrum
length-compress_spectrum F log10 input n k output = elim (Bool-cases (leb_ℤ (pos n) (pos k))) [
  | inl few ↦ rw few (length-blit output 0 _)
  | inr many ↦ rw many (length-blit output 0 _)
]

get_elem?-append_left {ℓ} :
    {A : Type ℓ} (xs ys : List A) (i : ℕ) → i < length xs → get_elem? (xs ++ ys) i ≡ get_elem? xs i
get_elem?-append_left [] ys i h = absurd (omega arith)
get_elem?-append_left (x ∷ xs) ys zero h = refl
get_elem?-append_left (x ∷ xs) ys (suc i) h = get_elem?-append_left xs ys i (omega arith)

module _ (F : Double) (log10 : F.Carrier → F.Carrier) where
  length-quantize_from :
      (i k : ℕ) (input : List F.Carrier) → length (quantize_from F log10 i k input) ≡ k
  unfolding quantize_from
  length-quantize_from i zero input = refl
  length-quantize_from i (suc k) input = ap suc (length-quantize_from (i + 1) k input)

  get_elem?-quantize_from :
      (i k : ℕ) (input : List F.Carrier) (j : ℕ)
      → j < k
      → get_elem? (quantize_from F log10 i k input) j
        ≡ some (quantize F log10 (get_or input (i + j) (F.of_int (pos 0))))
  unfolding quantize_from
  get_elem?-quantize_from i zero input j h = absurd (omega arith)
  get_elem?-quantize_from i (suc k) input zero h = let e : i + 0 ≡ i = omega arith in rw e
  get_elem?-quantize_from i (suc k) input (suc j) h =
      let e : i + suc j ≡ i + 1 + j = omega arith in
      rw e (get_elem?-quantize_from (i + 1) k input j (omega arith))

  length-average_from :
      (bins : ℤ) (ratio : F.Carrier) (input : List F.Carrier) (i k : ℕ)
      → length (average_from F log10 bins ratio input i k) ≡ k
  unfolding average_from
  length-average_from bins ratio input i zero = refl
  length-average_from bins ratio input i (suc k) =
      ap suc (length-average_from bins ratio input (i + 1) k)

  get_elem?-average_from :
      (bins : ℤ) (ratio : F.Carrier) (input : List F.Carrier) (i k j : ℕ)
      → j < k
      → get_elem? (average_from F log10 bins ratio input i k) j
        ≡ some (average_bin F log10 bins ratio input (i + j))
  unfolding average_from
  get_elem?-average_from bins ratio input i zero j h = absurd (omega arith)
  get_elem?-average_from bins ratio input i (suc k) zero h = let e : i + 0 ≡ i = omega arith in rw e
  get_elem?-average_from bins ratio input i (suc k) (suc j) h =
      let e : i + suc j ≡ i + 1 + j = omega arith in
      rw e (get_elem?-average_from bins ratio input (i + 1) k j (omega arith))

  pub length-bytes_of :
      (magnitudes : List F.Carrier) (n : ℕ)
      → length (bytes_of F log10 magnitudes n) ≡ max_spectrum_bins
  length-bytes_of magnitudes n =
      length-compress_spectrum F log10 magnitudes n (min n max_spectrum_bins)
        (replicate max_spectrum_bins 0)

  few_bytes :
      (magnitudes : List F.Carrier) (n i : ℕ) (output : List ℕ)
      → i < n
      → n ≤ max_spectrum_bins
      → length output ≡ max_spectrum_bins
      → get_elem? (compress_spectrum F log10 magnitudes (pos n) output (pos n)) i
        ≡ some (quantize F log10 (get_or magnitudes i (F.of_int (pos 0))))
  unfolding compress_spectrum ◌-ℤ◌
  few_bytes magnitudes n i output h small size =
      let same : leb_ℤ (pos n) (pos n) ≡ true = ground arith in
      let no_pad : pos_part (pos n -ℤ pos n) ≡ 0 = ground arith in
      let bytes = quantize_from F log10 0 n magnitudes in
      let src : length (bytes ++ replicate (pos_part (pos n -ℤ pos n)) 0) ≡ n = omega (
        arith,
        length-append bytes (replicate (pos_part (pos n -ℤ pos n)) 0),
        length-quantize_from 0 n magnitudes,
        length-replicate {A = ℕ} (pos_part (pos n -ℤ pos n)) 0,
        no_pad,
      ) in
      rw same (
        get_elem?-blit_inside output 0 (bytes ++ replicate (pos_part (pos n -ℤ pos n)) 0) i i
          (omega arith) (omega (arith, src)) (omega (arith, src, size))
        ∙ get_elem?-append_left bytes _ i (omega (arith, length-quantize_from 0 n magnitudes))
        ∙ get_elem?-quantize_from 0 n magnitudes i h
        ∙ ap (λ k. some (quantize F log10 (get_or magnitudes k (F.of_int (pos 0))))) (omega arith))

  many_bytes :
      (magnitudes : List F.Carrier) (n i : ℕ) (output : List ℕ)
      → i < max_spectrum_bins
      → max_spectrum_bins < n
      → length output ≡ max_spectrum_bins
      → get_elem? (compress_spectrum F log10 magnitudes (pos n) output (pos max_spectrum_bins)) i
        ≡ some (
            average_bin F log10
              (pos n)
              (F.div (F.of_int (pos n)) (F.of_int (pos max_spectrum_bins)))
              magnitudes
              i)
  unfolding compress_spectrum
  many_bytes magnitudes n i output h large size =
      let less : leb_ℤ (pos n) (pos max_spectrum_bins) ≡ false = ground arith in
      let ratio = F.div (F.of_int (pos n)) (F.of_int (pos max_spectrum_bins)) in
      let src = length-average_from (pos n) ratio magnitudes 0 max_spectrum_bins in
      rw less (
        get_elem?-blit_inside output 0 _ i i (omega arith) (omega (arith, src))
          (omega (arith, src, size))
        ∙ get_elem?-average_from (pos n) ratio magnitudes 0 max_spectrum_bins i h
        ∙ ap (λ k. some (average_bin F log10 (pos n) ratio magnitudes k)) (omega arith))

  pub get_elem?-bytes_of :
      (magnitudes : List F.Carrier) (n i : ℕ)
      → i < min n max_spectrum_bins
      → get_elem? (bytes_of F log10 magnitudes n) i ≡ some (bin_byte F log10 magnitudes n i)
  get_elem?-bytes_of magnitudes n i h = elim (dec_le n max_spectrum_bins) [
    | yes few ↦
        let all : min n max_spectrum_bins ≡ n = omega arith in
        let fits : leb n max_spectrum_bins ≡ true = ground arith in
        rw (all, fits)
          (few_bytes magnitudes n i (replicate max_spectrum_bins 0) (omega arith) few
            (length-replicate {A = ℕ} max_spectrum_bins 0))
    | no many ↦
        let all : min n max_spectrum_bins ≡ max_spectrum_bins = omega arith in
        let more : leb n max_spectrum_bins ≡ false = ground arith in
        rw (all, more)
          (many_bytes magnitudes n i (replicate max_spectrum_bins 0) (omega arith) (omega arith)
            (length-replicate {A = ℕ} max_spectrum_bins 0))
  ]

module _ (F : Double) (pow : F.Carrier → F.Carrier → F.Carrier) where
  pub length-decompress_spectrum :
      (bytes : List ℕ) (n : ℕ) → n ≤ length bytes → length (decompress_spectrum F pow bytes n) ≡ n
  unfolding decompress_spectrum
  length-decompress_spectrum bytes zero h = refl
  length-decompress_spectrum [] (suc n) h = absurd (omega arith)
  length-decompress_spectrum (b ∷ bytes) (suc n) h =
      ap suc (length-decompress_spectrum bytes n (omega arith))

  pub get_elem?-decompress_spectrum :
      (bytes : List ℕ) (n i byte : ℕ)
      → i < n
      → get_elem? bytes i ≡ some byte
      → get_elem? (decompress_spectrum F pow bytes n) i ≡ some (restore F pow byte)
  unfolding decompress_spectrum
  get_elem?-decompress_spectrum bytes zero i byte h e = absurd (omega arith)
  get_elem?-decompress_spectrum [] (suc n) i byte h e = cc
  get_elem?-decompress_spectrum (b ∷ bytes) (suc n) zero byte h e =
      let same : b ≡ byte = cc in rw same
  get_elem?-decompress_spectrum (b ∷ bytes) (suc n) (suc i) byte h e =
      get_elem?-decompress_spectrum bytes n i byte (omega arith) e
