-- ===== src/Send.antt =====
-- src/service/executor/btrfs_send.rs, compress.rs and measure.rs: the chunks that `btrfs send`
-- gives, and what is made of them. The child process, on a state `P` of its own, and the zstd
-- encoder with the sink behind it are parameters. Loops over the chunks run on fuel.
pub mod Stream
use bbkar.Common.{ℕ, zero, suc, ◌+◌, ◌%◌, ◌^◌, Bool, true, false, Option, none, some, List, [], ◌∷◌}
use bbkar.Common.{length}
use bbkar.Common.Br.{Br, ok, err, panic, out_of_fuel}
use bbkar.Common.Io.{Io, ◌>>=◌, done, lift}
use bbkar.Common.Text.{Text}
use bbkar.Dest.{add_u64}
use bbkar.Executor.{MeasureResult}

abbrev pub Bytes : Type 0
Bytes = List ℕ

-- `BtrfsSendChunk` of src/model/mod.rs: some bytes with their offset, or the exit code and stderr
pub data BtrfsSendChunk : Type 0 where
  stdout_bytes : Bytes → ℕ → BtrfsSendChunk
  process_exit : ℕ → Text → BtrfsSendChunk

-- `read` gives no bytes at the end of the output; `wait` gives the exit code, none for a signal.
pub record Child (P : Type 0) : Type 0 where
  pub read : Io P Bytes
  pub read_stderr : P → Text × P
  pub wait : Io P (Option ℕ)

pub record BtrfsSendIterator : Type 0 where
  pub offset : ℕ
  pub is_done : Bool

-- The item and the state of the iterator and the process after it
abbrev pub Next : Type 0 → Type 0
Next P = Option (Br BtrfsSendChunk) × BtrfsSendIterator × P

abbrev exit_code : Option ℕ → ℕ
exit_code none = 1
exit_code (some code) = code % 2 ^ 32

abbrev finished : BtrfsSendIterator → BtrfsSendIterator
finished it = record it { is_done = true }

module _ {P : Type 0} (child : Child P) where
  unfoldable pub new : BtrfsSendIterator
  new = record { offset = 0; is_done = false }

  -- What `wait` gives, behind the end of the output
  abbrev of_wait : BtrfsSendIterator → Text → Br (Option ℕ) × P → Next P
  of_wait it stderr (ok status, p) = (some (ok (process_exit (exit_code status) stderr)), it, p)
  of_wait it stderr (err e, p) = (some (err e), it, p)
  of_wait it stderr (panic, p) = (some panic, it, p)
  of_wait it stderr (out_of_fuel, p) = (some out_of_fuel, it, p)

  abbrev of_stderr : BtrfsSendIterator → Text × P → Next P
  of_stderr it (stderr, p) = of_wait it stderr (child.wait p)

  -- The `match` on the read
  abbrev of_read : BtrfsSendIterator → Br Bytes × P → Next P
  of_read it (ok [], p) = of_stderr (finished it) (child.read_stderr p)
  of_read it (ok (b ∷ buf), p) = (
    some (ok (stdout_bytes (b ∷ buf) it.offset)),
    record it { offset = add_u64 it.offset (length (b ∷ buf)) },
    p,
  )
  of_read it (err e, p) = (some (err e), finished it, p)
  of_read it (panic, p) = (some panic, finished it, p)
  of_read it (out_of_fuel, p) = (some out_of_fuel, finished it, p)

  abbrev next_if : Bool → BtrfsSendIterator → P → Next P
  next_if true it p = (none, it, p)
  next_if false it p = of_read it (child.read p)

  -- `Iterator::next`
  unfoldable pub next : BtrfsSendIterator → P → Next P
  next it p = next_if it.is_done it p

-- The zstd encoder over a sink in the world `W`, which `finish` gives back as an `O`
pub record Encoder (W E O : Type 0) : Type 0 where
  pub write_all : E → Bytes → Io W E
  pub finish : E → Io W O

module _ {W E O : Type 0} (encoder : Encoder W E O) where
  -- Only the bytes are written: the exit code is ignored.
  unfoldable pub write_chunk : E → BtrfsSendChunk → Io W E
  write_chunk e (stdout_bytes buf offset) = encoder.write_all e buf
  write_chunk e (process_exit code stderr) = done e

  -- One round of the loop over the chunks; `rest` is the next round.
  unfoldable pub on_item : {P : Type 0} → E → (E → BtrfsSendIterator → P → Io W O) → Next P → Io W O
  unfolding write_chunk
  on_item e rest (none, it, p) = encoder.finish e
  on_item e rest (some item, it, p) = do chunk ← lift item; e' ← write_chunk e chunk; rest e' it p

  -- `process_all`, from an iterator in any state
  unfoldable pub process_all : {P : Type 0} → Child P → ℕ → E → BtrfsSendIterator → P → Io W O
  unfolding on_item next
  process_all child zero e it p = lift out_of_fuel
  process_all child (suc fuel) e it p =
      on_item e (λ e' it' p'. process_all child fuel e' it' p') (next child it p)

abbrev pub count_raw : ℕ → BtrfsSendChunk → ℕ
count_raw uncompressed (stdout_bytes buf offset) = add_u64 uncompressed (length buf)
count_raw uncompressed (process_exit code stderr) = uncompressed

-- `CountingWriter` is the sink, so that the encoder gives back a count.
module _ {W E : Type 0} (encoder : Encoder W E ℕ) where
  abbrev measured : ℕ → ℕ → MeasureResult
  measured uncompressed compressed = record { uncompressed = uncompressed; compressed = compressed }

  unfoldable pub on_measured :
      {P : Type 0}
      → ℕ
      → E
      → (ℕ → E → BtrfsSendIterator → P → Io W MeasureResult)
      → Next P
      → Io W MeasureResult
  unfolding write_chunk
  on_measured raw e rest (none, it, p) = do
    compressed ← encoder.finish e
    done (measured raw compressed)
  on_measured raw e rest (some item, it, p) = do
    chunk ← lift item
    e' ← write_chunk encoder e chunk
    rest (count_raw raw chunk) e' it p

  unfoldable pub measure_loop :
      {P : Type 0} → Child P → ℕ → ℕ → E → BtrfsSendIterator → P → Io W MeasureResult
  unfolding on_measured next
  measure_loop child zero raw e it p = lift out_of_fuel
  measure_loop child (suc fuel) raw e it p =
      on_measured raw e (λ raw' e' it' p'. measure_loop child fuel raw' e' it' p') (next child it p)

  -- With the encoder that it makes, on an iterator that it is given
  unfoldable pub measure_subvolume : {P : Type 0} → Child P → ℕ → Io W E → P → Io W MeasureResult
  unfolding measure_loop new
  measure_subvolume child fuel make p = do e ← make; measure_loop child fuel 0 e (new child) p
