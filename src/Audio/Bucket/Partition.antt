-- ===== src/Audio/Bucket/Partition.antt =====
-- BucketSet::rebuild: the buckets partition the index range.
use phu_audio_lib.Base.{
  ℕ, zero, suc, ◌+◌, ◌*◌, ap, ◌/◌, ◌^◌, ◌≤◌, ◌<◌, min, ◌≡◌, refl, ℤ, pos, ◌*ℤ◌, true, List, [], ◌∷◌,
  length, to_int32-pos, arith,
}
use phu_audio_lib.Audio.Bucket.{Bucket, mul_div, build, rebuild}

pub mul_div-pos :
    (a b c : ℕ) → 0 < c → a * b / c < 2 ^ 31 → mul_div (pos a) (pos b) (pos c) ≡ pos (a * b / c)
unfolding mul_div ◌*ℤ◌
mul_div-pos a b c h k = ground (arith, to_int32-pos (a * b / c))

-- `b` is the clean or dirty bucket of the indices from `lo` up to `hi`.
abbrev pub Spans : ℕ → ℕ → Bucket → Type 0
Spans lo hi b = (b.start_idx ≡ pos lo) × (b.end_idx ≡ pos hi)

-- The buckets follow one another from `lo` to `hi` with no gap, and none is empty.
abbrev pub Tiles : ℕ → ℕ → List Bucket → Type 0
Tiles lo hi [] = lo ≡ hi
Tiles lo hi (b ∷ bs) = (mid : ℕ) × Spans lo mid b × (lo < mid) × Tiles mid hi bs

abbrev pub AllDirty : List Bucket → Type 0
AllDirty [] = Unit {0}
AllDirty (b ∷ bs) = (b.dirty ≡ true) × AllDirty bs

pub div_bound : (i n c : ℕ) → 0 < c → i ≤ c → i * n / c ≤ n
div_bound i n c h k = grind arith

pub div_step : (i n c : ℕ) → 0 < c → c ≤ n → i * n / c < (i + 1) * n / c
div_step i n c h k = grind arith

zero_div : (c n : ℕ) → 0 * n / c ≡ 0
zero_div c n = omega arith

-- The loop of `rebuild` from round `i` on tiles what is left of the range.
build-Tiles :
    (k i n c : ℕ)
    → i + k ≡ c
    → 0 < c
    → c ≤ n
    → n < 2 ^ 31
    → Tiles (i * n / c) n (build k i (pos n) (pos c))
unfolding build
build-Tiles zero i n c e h k m = grind (arith, (λ (q : i ≡ c). q))
build-Tiles (suc k) i n c e h l m = (
  (i + 1) * n / c,
  (
    mul_div-pos i n c h (grind (arith, div_bound)),
    mul_div-pos (i + 1) n c h (grind (arith, div_bound)),
  ),
  div_step i n c h l,
  build-Tiles k (i + 1) n c (omega arith) h l m,
)

build-AllDirty : (k i : ℕ) (n c : ℤ) → AllDirty (build k i n c)
unfolding build
build-AllDirty zero i n c = tt
build-AllDirty (suc k) i n c = (refl, build-AllDirty k (i + 1) n c)

pub length-build : (k i : ℕ) (n c : ℤ) → length (build k i n c) ≡ k
unfolding build
length-build zero i n c = refl
length-build (suc k) i n c = ap suc (length-build k (i + 1) n c)

-- At positive sizes `rebuild` makes min(B, N) buckets.
pub rebuild-build :
    (n b : ℕ) → 0 < n → 0 < b → rebuild (pos n) (pos b) ≡ build (min b n) 0 (pos n) (pos (min b n))
unfolding rebuild
rebuild-build n b h k = ground arith

-- For every positive size N below 2^31 and positive bucket count B, `rebuild` makes min(B, N)
-- buckets. They are contiguous and non-empty, cover [0, N) exactly, and all start dirty.
pub rebuild-Tiles :
    (n b : ℕ)
    → 0 < n
    → 0 < b
    → n < 2 ^ 31
    → Tiles 0 n (rebuild (pos n) (pos b))
      × (length (rebuild (pos n) (pos b)) ≡ min b n)
      × AllDirty (rebuild (pos n) (pos b))
rebuild-Tiles n b h k m = rw (rebuild-build n b h k) (
  rw (zero_div (min b n) n) at
      (build-Tiles (min b n) 0 n (min b n) (omega arith) (omega arith) (omega arith) m),
  length-build (min b n) 0 (pos n) (pos (min b n)),
  build-AllDirty (min b n) 0 (pos n) (pos (min b n)),
)
