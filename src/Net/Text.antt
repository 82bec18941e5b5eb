-- ===== src/Net/Text.antt =====
-- C strings in fixed arrays: `strncpy` of the C library, as its manual states it, and
-- util/StringUtil.h over it. A string is the list of its bytes, without the terminating zero.
use phu_audio_lib.Base.{
  ℕ, zero, suc, ◌-◌, ◌≤◌, ◌<◌, ◌≡◌, ◌≢◌, refl, ap, ◌==◌, List, [], ◌∷◌, length, take, set, blit,
  length-set, set-set, length-blit, if◌then◌else◌, arith,
}

-- The string that an array of bytes holds: what stands before the first zero.
unfoldable pub string_of : List ℕ → List ℕ
string_of [] = []
string_of (c ∷ cs) = if c == 0 then [] else c ∷ string_of cs

-- The `n` bytes that `strncpy` writes: those of the string, cut at `n` or padded with zeros.
pub padded : ℕ → List ℕ → List ℕ
padded zero s = []
padded (suc n) [] = 0 ∷ padded n []
padded (suc n) (c ∷ s) = c ∷ padded n s

-- `strncpy(dest, src, n)`
pub strncpy : List ℕ → List ℕ → ℕ → List ℕ
unfolding padded
strncpy dest src n = blit dest 0 (padded n src)

-- `StringUtil::safe_strncpy`
unfoldable pub safe_strncpy : List ℕ → List ℕ → ℕ → List ℕ
unfolding strncpy
safe_strncpy dest src dest_size =
    if dest_size == 0 then dest else set (strncpy dest src (dest_size - 1)) (dest_size - 1) 0

-- No byte of the string is zero.
abbrev pub NoZero : List ℕ → Type 0
NoZero [] = Unit {0}
NoZero (c ∷ s) = (c ≢ 0) × NoZero s

length-padded : (n : ℕ) (s : List ℕ) → length (padded n s) ≡ n
unfolding padded
length-padded zero s = refl
length-padded (suc n) [] = ap suc (length-padded n [])
length-padded (suc n) (c ∷ s) = ap suc (length-padded n s)

pub length-safe_strncpy :
    (dest src : List ℕ) (n : ℕ) → length (safe_strncpy dest src n) ≡ length dest
unfolding safe_strncpy
length-safe_strncpy dest src n = ground (
  arith,
  length-set (blit dest 0 (padded (n - 1) src)) (n - 1) 0,
  length-blit dest 0 (padded (n - 1) src),
)

string_of-copy :
    (dest src : List ℕ) (n : ℕ)
    → n < length dest
    → NoZero src
    → string_of (set (blit dest 0 (padded n src)) n 0) ≡ take n src
unfolding string_of padded
string_of-copy [] src n h z = absurd (omega arith)
string_of-copy (d ∷ dest) src zero h z = refl
string_of-copy (d ∷ dest) [] (suc n) h z = refl
string_of-copy (d ∷ dest) (c ∷ src) (suc n) h z =
    ground (arith, string_of-copy dest src n (omega arith) z.1)

-- Into an array of at least `size` bytes, `safe_strncpy` copies the first `size - 1` bytes of a string and
-- nothing of what stood in the array before can be read behind them as a part of the string.
pub string_of-safe_strncpy :
    (dest src : List ℕ) (size : ℕ)
    → 0 < size
    → size ≤ length dest
    → NoZero src
    → string_of (safe_strncpy dest src size) ≡ take (size - 1) src
unfolding safe_strncpy
string_of-safe_strncpy dest src size p h z = ground (arith, string_of-copy dest src (size - 1))

pub set-safe_strncpy :
    (dest src : List ℕ) (size : ℕ)
    → 0 < size
    → set (safe_strncpy dest src size) (size - 1) 0 ≡ safe_strncpy dest src size
unfolding safe_strncpy
set-safe_strncpy dest src size h =
    ground (arith, set-set (strncpy dest src (size - 1)) (size - 1) 0 0)
