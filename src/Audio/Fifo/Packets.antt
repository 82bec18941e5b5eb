-- ===== src/Audio/Fifo/Packets.antt =====
-- audio/PacketFifo.h. The pool has a slot for each place of the fifo.
pub mod Refine
use phu_audio_lib.Base.{
  ℕ, ◌+◌, ◌-◌, ◌==◌, ltb, ℤ, pos, pos_part, min_ℤ, Bool, true, false, List, length, get_or, set,
  take, blit, replicate, if◌then◌else◌,
}
use phu_audio_lib.Audio.Fifo.{AbstractFifo, Blocks, block_size}

-- `TimedBufferPacket` with `MaxCount` elements, at sample type `A` and position type `D`.
module _ (A D : Type 0) where
  pub record TimedBufferPacket : Type 0 where
    pub start_ppq : D
    pub count : ℤ
    pub samples : List A

  -- `set`. A count that is not positive copies nothing, where C++ is undefined for a negative one.
  unfoldable pub set_packet : ℤ → D → List A → ℤ → TimedBufferPacket → TimedBufferPacket
  set_packet max_count ppq src n p =
      let count = min_ℤ n max_count in
      record {
        start_ppq = ppq;
        count = count;
        samples = blit p.samples 0 (take (pos_part count) src);
      }

abbrev pub slot_of : Blocks → ℕ
slot_of scope = if ltb 0 scope.block_size1 then scope.start_index1 else scope.start_index2

module _ (fifo : AbstractFifo) (P : Type 0) where
  pub record PacketFifo : Type 0 where
    pub indices : fifo.State
    pub pool : List P

  -- Any packet may stand in the slots at first.
  unfoldable pub new_fifo : P → PacketFifo
  new_fifo packet = record { indices = fifo.initial; pool = replicate fifo.total_size packet }

  unfoldable pub reset : PacketFifo → PacketFifo
  reset f = record f { indices = fifo.reset f.indices }

  unfoldable pub push : P → PacketFifo → PacketFifo × Bool
  push packet f =
      let scope = fifo.prepare_to_write f.indices 1 in
      let indices = fifo.finished_write f.indices (block_size scope) in
      if block_size scope == 0
      then (record f { indices = indices }, false)
      else (record { indices = indices; pool = set f.pool (slot_of scope) packet }, true)

  -- The argument `out` stays as it was where there is nothing to pull.
  unfoldable pub pull : P → PacketFifo → PacketFifo × P × Bool
  pull out f =
      let scope = fifo.prepare_to_read f.indices 1 in
      let indices = fifo.finished_read f.indices (block_size scope) in
      if block_size scope == 0
      then (record f { indices = indices }, out, false)
      else (record f { indices = indices }, get_or f.pool (slot_of scope) out, true)

  unfoldable pub get_num_ready : PacketFifo → ℕ
  get_num_ready f = fifo.num_ready f.indices
