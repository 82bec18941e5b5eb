-- ===== src/Lib.antt =====
-- phu-audio-lib: a library for audio plug-ins. The parts modelled here:
--
-- - Audio: a block of samples goes into a ring that is addressed by the musical position
--   (`Audio.PpqRing`, audio/PpqAddressedRingBuffer.h), which reports the ranges that it has written
--   (`Audio.InsertResult`, audio/RingBufferInsertResult.h); a set of buckets over the same places
--   marks those that the ranges touch as dirty, and a reader visits the dirty ones (`Audio.Bucket`,
--   audio/BucketSet.h). `Audio.Pipeline` puts the two together.
--   Two fifos carry data to another thread: `Audio.Fifo.Packets` (audio/PacketFifo.h) and
--   `Audio.Fifo.Samples` (audio/AudioSampleFifo.h), over the indices of `juce::AbstractFifo`, which
--   `Audio.Fifo` has as a parameter with the laws that JUCE documents.
--   Beside them stand a buffer of bins by position (`Audio.BeatSyncBuffer`, audio/BeatSyncBuffer.h) and
--   the conversion of note names (`Audio.NoteToFreq`, audio/NoteToFreq.h).
--   `Audio.LinkwitzRiley` (audio/LinkwitzRileyFilter.h) has the filter of biquads; below it are the stereo
--   filter and the crossover of two bands (`Stereo`), and that of up to seven (`MultiBand`), where
--   `Process` has its samples and blocks, and `Run` the calls that an object sees; `TwoBands` compares
--   the two crossovers. `Audio.FftProcessor`
--   (audio/FFTProcessor.h) pulls from the fifo of samples into a ring, and analyses the ring; the
--   transform of `juce::dsp::FFT` is a parameter, and `Feed` has the ring and the fifo together.
--   `Audio.Iso226` (audio/Iso226.h) computes equal-loudness contours at reference frequencies, and at
--   others by a spline, whose binary search has the number of knots as fuel.
-- - Debug: any thread logs into a queue of fixed slots, and a timer of the user interface takes
--   batches out of it (`Debug.LogQueue`, debug/DebugLogEventQueue.h, debug/EditorLogger.h and .cpp).
-- - Net: plug-in instances of one machine talk by UDP multicast. `Net.Lifecycle` is the base class
--   with its sockets and its receiver thread (network/MulticastBroadcasterBase.h and .cpp),
--   `Net.States` the map of what is known of each remote instance (network/StatefulBroadcaster.h),
--   `Net.Text` the copying of strings into packets (util/StringUtil.h), `Net.Sample` the broadcaster
--   of raw samples (network/SampleBroadcaster.h and .cpp), `Net.Ctrl` that of announcements
--   (network/CtrlBroadcaster.h and .cpp), `Net.Spectrum` that of spectra
--   (network/SpectrumBroadcaster.h and .cpp), and `Net.Command` that of commands to listeners
--   (network/CommandBroadcasterBase.h, network/CommandBroadcaster.h and .cpp).
-- - Events: `Events.SyncGlobals` tracks tempo, sample rate and play state of the host and calls its
--   listeners when they change (events/SyncGlobals.h, events/EventSource.h).
-- - Analog: `Analog.Circuit` is a solver for linear circuits by nodal analysis
--   (analog/circuit/Circuit.h and .cpp). It stamps the elements of `Analog.Elements`
--   (analog/circuit/elements/) into its matrix, and factorises and solves by `Analog.Lu` (`luFactor` and
--   `luSolve` of Circuit.cpp). `Analog.Newton` is the iteration for nonlinear circuits
--   (analog/nonlinear/NR.h), with the caller's step as a parameter. `Analog.Triode` is the model of a
--   tube (analog/nonlinear/TriodeKoren.h and .cpp); `Analog.TubeStage` and `Analog.VariableMu` are stages
--   that give its equations to the iteration for each sample (analog/models/TubeStage.h and .cpp,
--   VariableMuStage.h and .cpp). `Analog.Detector` makes a control voltage of a signal
--   (analog/models/sidechain/), `Analog.Transformer` colours one (analog/models/transformer/), and `Analog.Levels`
--   converts decibels (analog/dsp/DbConversion.h).
-- - `Memory.AlignedAllocator` is the allocator of aligned memory (memory/AlignedAllocator.h).
-- - Gl: `Gl.ShaderBuilder` assembles and compiles shaders for the version that the driver has
--   (gl/GLSLShaderBuilder.h and .cpp), `Gl.RendererBase` holds the shader of a renderer
--   (gl/GLRendererBase.h), and `Gl.SnapshotRenderer` hands snapshots to the thread of OpenGL
--   (gl/GLSnapshotRenderer.h). The driver and `replace` of `juce::String` are parameters.
-- - `Base` has lists, integers and Booleans, `Double` the floating-point numbers.
--
-- A class is a record with the source's members, and a method is a function from the old state to the
-- new one, with the same name in this language's spelling (`tryPush` is `try_push`). A method of
-- several steps that loops or branches has helpers that are named in the comments above them. A child
-- module has the proofs: `Audio.PpqRing.Bounds` those on the bounds of the ring, and so on; the
-- modules called Tests apply the theorems to concrete values.
--
-- Integers of 32 bits are native natural numbers with their wrap-around written out, or the integers
-- of `Base` with `to_int32`. Floating-point numbers are a record of operations of which nothing is
-- assumed (`Double`), but for the laws that a theorem takes as a hypothesis; where the code only copies them, their type is a parameter. Of the operating
-- system, the results of its calls are arguments: the sockets opened, the datagram received, the time,
-- the random instance ID. Loops are recursions on a list or on a number that the source counts; only
-- `digits` of `Audio.NoteToFreq` and the binary search of `Audio.Iso226.Spline` have fuel: 10, the number
-- of digits of the largest `int`, and the number of knots, of which each round leaves out one or more.
--
-- A read out of an array is a fault, an `Option` that is `none`, where a comment says so; elsewhere it gives
-- a default. A write out of an array is never lost where a theorem claims that there is none: in
-- `Audio.LinkwitzRiley` it leaves the empty list, in `Debug.LogQueue` a list longer than the array. The copies of
-- `Audio.PpqRing` are cut at the end of the buffer, which they reach only above the working size 2 ^ 30 that
-- the theorems on `insert` have as a bound.
--
-- A mutex or the single thread of a method makes it one step. Atomics are modelled as plain variables,
-- except that `Debug.LogQueue.Races` takes `tryPush` apart where another producer can come between.
--
-- Not modelled: drawing itself and the sink of the logger, which is an interface. Sending and receiving bytes, threads and the tests have no model.
pub mod Base
pub mod Double
pub mod Audio
pub mod Debug
pub mod Net
pub mod Events
pub mod Analog
pub mod Memory
pub mod Gl
