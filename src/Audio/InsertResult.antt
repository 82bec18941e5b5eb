-- ===== src/Audio/InsertResult.antt =====
-- audio/RingBufferInsertResult.h: which indices of a ring buffer a write has touched.
use phu_audio_lib.Base.{ℤ, pos, ltb_ℤ, Bool, false}

-- A half-open range [start, end).
pub record Range : Type 0 where
  pub start : ℤ
  pub end : ℤ

abbrev pub no_range : Range
no_range = record { start = pos 0; end = pos 0 }

-- `Range::valid`
unfoldable pub valid : Range → Bool
valid r = ltb_ℤ r.start r.end

pub record RingBufferInsertResult : Type 0 where
  pub range1 : Range
  pub range2 : Range
  pub ok : Bool

abbrev pub no_insert : RingBufferInsertResult
no_insert = record { range1 = no_range; range2 = no_range; ok = false }
