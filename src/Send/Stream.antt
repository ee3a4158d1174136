-- ===== src/Send/Stream.antt =====
-- What reaches the sink from `btrfs send`, against the reads of its output.
use bbkar.Common.{ℕ, zero, suc, ◌+◌, ◌≤◌, ◌≡◌, refl, sym, ap, ◌∙◌, arith, false, Option}
use bbkar.Common.{List, [], ◌∷◌, length}
use bbkar.Common.Br.{Br, BbkarError, ok, err}
use bbkar.Common.Io.{Io, ◌>>=◌, done, lift, continue, continue_cong, continue_assoc}
use bbkar.Common.Text.{Text}
use bbkar.Dest.{add_u64}
use bbkar.Executor.{MeasureResult}
use bbkar.Send.{Bytes, BtrfsSendChunk, Child, BtrfsSendIterator, Encoder, next, write_chunk}
use bbkar.Send.{process_all, on_item, measure_loop, on_measured, measure_subvolume}
use bbkar.Send

-- The reads from a state of the process on: the bytes of each, and how they end. At the end of the
-- output the process is waited for, with any exit code; a read or the wait may fail.
pub data Reads {P : Type 0} (child : Child P) : P → List Bytes → Br (Unit {0}) → Type 0 where
  exits :
      {p p₁ p₂ p₃ : P} (stderr : Text) (status : Option ℕ)
      → child.read p ≡ (ok [], p₁)
      → child.read_stderr p₁ ≡ (stderr, p₂)
      → child.wait p₂ ≡ (ok status, p₃)
      → Reads child p [] (ok tt)
  wait_fails :
      {p p₁ p₂ p₃ : P} (stderr : Text) (e : BbkarError)
      → child.read p ≡ (ok [], p₁)
      → child.read_stderr p₁ ≡ (stderr, p₂)
      → child.wait p₂ ≡ (err e, p₃)
      → Reads child p [] (err e)
  read_fails : {p p₁ : P} (e : BbkarError) → child.read p ≡ (err e, p₁) → Reads child p [] (err e)
  gives :
      {p p₁ : P} {l : List Bytes} {r : Br (Unit {0})} (b : ℕ) (buf : Bytes)
      → child.read p ≡ (ok (b ∷ buf), p₁)
      → Reads child p₁ l r
      → Reads child p ((b ∷ buf) ∷ l) r

abbrev pub from_offset : ℕ → BtrfsSendIterator
from_offset offset = record { offset = offset; is_done = false }

module _ {W E O : Type 0} (encoder : Encoder W E O) where
  -- All bytes written in order
  unfoldable pub write_all_of : E → List Bytes → Io W E
  write_all_of e [] = done e
  write_all_of e (buf ∷ l) = do e' ← encoder.write_all e buf; write_all_of e' l

  -- What the sink is left with: the bytes of the output, and the end of the stream if it ended
  -- well.
  unfoldable pub written : E → List Bytes → Br (Unit {0}) → Io W O
  unfolding write_all_of
  written e l r = do e' ← write_all_of e l; u ← lift r; encoder.finish e'

  -- With more fuel than there are reads, the loop of process_all over the chunks of a process ends:
  -- its sink gets the bytes of all reads in order, and the stream is ended if the output ended and
  -- the process could be waited for, whatever its exit code; if a read or the wait fails, so does
  -- the loop, with that error and with the stream not ended.
  pub process_all-written :
      {P : Type 0} (child : Child P) {p : P} {l : List Bytes} {r : Br (Unit {0})} (fuel : ℕ) (e : E)
      (offset : ℕ) (w : W)
      → Reads child p l r
      → length l + 2 ≤ fuel
      → process_all encoder child fuel e (from_offset offset) p w ≡ written e l r w
  unfolding process_all on_item write_chunk next written write_all_of
  process_all-written child zero e offset w h k = absurd (omega arith)
  process_all-written child (suc zero) e offset w h k = absurd (omega arith)
  process_all-written child (suc (suc fuel)) e offset w (exits stderr status a b c) k =
      rw (a, b, c) refl
  process_all-written child (suc (suc fuel)) e offset w (wait_fails stderr x a b c) k =
      rw (a, b, c) refl
  process_all-written child (suc (suc fuel)) e offset w (read_fails x a) k = rw a refl
  process_all-written child (suc (suc fuel)) e offset w (gives {l = l} b buf a h) k = rw a (
      continue_cong (encoder.write_all e (b ∷ buf) w) (λ e' w'.
        process_all-written child (suc fuel) e' (add_u64 offset (length (b ∷ buf))) w' h
          (omega (arith, k)))
      ∙ sym (continue_assoc (encoder.write_all e (b ∷ buf) w) _ _))

-- The lengths of the reads, added to a count of 64 bits
unfoldable pub add_lengths : ℕ → List Bytes → ℕ
add_lengths raw [] = raw
add_lengths raw (buf ∷ l) = add_lengths (add_u64 raw (length buf)) l

abbrev pub measure_of : ℕ → ℕ → MeasureResult
measure_of raw compressed = record { uncompressed = raw; compressed = compressed }

module _ {W E : Type 0} (encoder : Encoder W E ℕ) where
  measure_loop-written :
      {P : Type 0} (child : Child P) {p : P} {l : List Bytes} {r : Br (Unit {0})} (fuel raw : ℕ)
      (e : E) (offset : ℕ) (w : W)
      → Reads child p l r
      → length l + 2 ≤ fuel
      → measure_loop encoder child fuel raw e (from_offset offset) p w
        ≡ continue (written encoder e l r w) (λ n. done (measure_of (add_lengths raw l) n))
  unfolding measure_loop on_measured write_chunk next written write_all_of add_lengths
  measure_loop-written child zero raw e offset w h k = absurd (omega arith)
  measure_loop-written child (suc zero) raw e offset w h k = absurd (omega arith)
  measure_loop-written child (suc (suc fuel)) raw e offset w (exits stderr status a b c) k =
      rw (a, b, c) refl
  measure_loop-written child (suc (suc fuel)) raw e offset w (wait_fails stderr x a b c) k =
      rw (a, b, c) refl
  measure_loop-written child (suc (suc fuel)) raw e offset w (read_fails x a) k = rw a refl
  measure_loop-written child (suc (suc fuel)) raw e offset w (gives {l = l} b buf a h) k = rw a (
      continue_cong (encoder.write_all e (b ∷ buf) w) (λ e' w'.
        measure_loop-written child (suc fuel) (add_u64 raw (length (b ∷ buf))) e'
          (add_u64 offset (length (b ∷ buf))) w' h (omega (arith, k)))
      ∙ sym (continue_assoc (encoder.write_all e (b ∷ buf) w) _ _)
      ∙ ap (λ z. continue z (λ n. done (measure_of (add_lengths raw ((b ∷ buf) ∷ l)) n)))
          (sym (continue_assoc (encoder.write_all e (b ∷ buf) w) _ _)))

  -- With more fuel than there are reads, measure_subvolume ends: it feeds the encoder as
  -- process_all does, and its result is the count of the sink and the sum of the lengths of the
  -- reads, in 64 bits; it fails where the encoder, a read or the wait fails.
  pub measure_subvolume-written :
      {P : Type 0} (child : Child P) {p : P} {l : List Bytes} {r : Br (Unit {0})} (fuel : ℕ)
      (make : Io W E) (w : W)
      → Reads child p l r
      → length l + 2 ≤ fuel
      → measure_subvolume encoder child fuel make p w
        ≡ continue
            (make w)
            (λ e. written encoder e l r >>= λ n. done (measure_of (add_lengths 0 l) n))
  unfolding measure_subvolume Send.new
  measure_subvolume-written child fuel make w h k =
      continue_cong (make w) (λ e w'. measure_loop-written child fuel 0 e 0 w' h k)
