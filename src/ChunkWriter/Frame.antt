-- ===== src/ChunkWriter/Frame.antt =====
-- The chunk writer of src/service/executor/write_dest.rs acts on the files of its parts alone.
use bbkar.Common.{ℕ, ◌+◌, ◌≡◌, refl, arith}
use bbkar.Common.{Option, none, some, List, [], ◌∷◌, Bool-cases, inl, inr}
use bbkar.Common.Br.{unwrap, unwrap-some}
use bbkar.Common.Io.{Ends, Ends-bind, Ends-done, Ends-lift}
use bbkar.Common.Text.{Text}
use bbkar.ChunkWriter.{
  Bytes, Output, Digest, ChunkedWriter, part_name, closed, finalize_file, start_write, next_part,
}
use bbkar.ChunkWriter.{opened, roll_next, must_roll, write, finish, write_calls}

-- An output whose operations on parts leave `P` true
pub record LeavesParts {W : Type 0} (out : Output W) (P : W → Type 0) : Type 0 where
  pub open_leaves : (n : ℕ) (w : W) → P w → P (out.open_chunk (part_name n) w).1
  pub write_leaves : (n : ℕ) (buf : Bytes) (w : W) → P w → P (out.write_chunk (part_name n) buf w).1
  pub close_leaves : (n : ℕ) (w : W) → P w → P (out.close_chunk (part_name n) w).1

abbrev IsPart : Option Text → Type 0
IsPart none = Unit
IsPart (some f) = (n : ℕ) × (f ≡ part_name n)

module _ {W H : Type 0} {out : Output W} (digest : Digest H) {P : W → Type 0}
    (leaves : LeavesParts out P) where
  abbrev HasPart : ChunkedWriter H → W → Type 0
  HasPart st w = P w × IsPart st.current_file

  finalize-Frame :
      (raw : ℕ) (st : ChunkedWriter H) (file : Option Text) (w : W)
      → st.current_file ≡ file
      → IsPart file
      → P w
      → Ends P HasPart (finalize_file out digest raw st file w)
  unfolding finalize_file closed
  finalize-Frame raw st none w e part p = Ends-done st w p (p, rw e tt)
  finalize-Frame raw st (some f) w e (n, named) p =
      Ends-bind {Q = λ u w'. P w'} (out.close_chunk f w) _
        (rw named
          (record { always = leaves.close_leaves n w p; on_ok = λ u h. leaves.close_leaves n w p }))
        (λ u w₁ p₁ q₁. Ends-done (closed out digest raw st) w₁ p₁ (p₁, tt))

  start_write-Frame :
      (raw : ℕ) (st : ChunkedWriter H) (w : W)
      → IsPart st.current_file
      → P w
      → Ends P HasPart (start_write out digest raw st w)
  unfolding start_write roll_next opened
  start_write-Frame raw st w part p = elim (Bool-cases (must_roll out digest st)) [
    | inl full ↦ rw full (
        Ends-bind (finalize_file out digest raw st st.current_file w) _
          (finalize-Frame raw st st.current_file w refl part p)
          (λ st₁ w₁ p₁ q₁.
            let name = part_name (next_part out digest st₁) in
            let opens = leaves.open_leaves (next_part out digest st₁) w₁ p₁ in
            Ends-bind {Q = λ u w'. P w'} (out.open_chunk name w₁) _
              (record { always = opens; on_ok = λ u h. opens })
              (λ u w₂ p₂ q₂.
                Ends-done (opened out digest st₁) w₂ p₂ (p₂, (next_part out digest st₁, refl)))))
    | inr fits ↦ rw fits (Ends-done st w p (p, part))
  ]

  part-of : (o : Option Text) (f : Text) → IsPart o → o ≡ some f → (n : ℕ) × (f ≡ part_name n)
  part-of none f part h = ground arith
  part-of (some g) f (n, named) h = (n, ground (arith, named))

  write-Frame :
      (raw : ℕ) (st : ChunkedWriter H) (buf : Bytes) (w : W)
      → IsPart st.current_file
      → P w
      → Ends P (λ q w'. HasPart q.0 w') (write out digest raw st buf w)
  unfolding write
  write-Frame raw st buf w part p =
      Ends-bind (start_write out digest raw st w) _ (start_write-Frame raw st w part p)
        (λ st₁ w₁ p₁ q₁.
          Ends-bind {Q = λ file w'. (n : ℕ) × (file ≡ part_name n)} (unwrap st₁.current_file, w₁) _
            (Ends-lift _ w₁ p₁
              (λ file e. part-of st₁.current_file file q₁.1 (unwrap-some st₁.current_file file e)))
            (λ file w₂ p₂ (n, named).
              Ends-bind {Q = λ k w'. P w'} (out.write_chunk file buf w₂) _
                (rw named (record {
                  always = leaves.write_leaves n buf w₂ p₂;
                  on_ok = λ k h. leaves.write_leaves n buf w₂ p₂;
                }))
                (λ k w₃ p₃ q₃. Ends-done _ w₃ p₃ (p₃, q₁.1))))

  pub write_calls-Frame :
      (st : ChunkedWriter H) (calls : List (ℕ × Bytes)) (w : W)
      → IsPart st.current_file
      → P w
      → Ends P (λ q w'. HasPart q.0 w') (write_calls out digest st calls w)
  unfolding write_calls
  write_calls-Frame st [] w part p = Ends-done (st, 0) w p (p, part)
  write_calls-Frame st ((raw, buf) ∷ calls) w part p =
      Ends-bind (write out digest raw st buf w) _ (write-Frame raw st buf w part p) (λ q w₁ p₁ q₁.
        Ends-bind (write_calls out digest q.0 calls w₁) _ (write_calls-Frame q.0 calls w₁ q₁.1 p₁)
          (λ r w₂ p₂ q₂. Ends-done (r.0, q.1 + r.1) w₂ p₂ q₂))

  pub finish-Frame :
      (raw : ℕ) (st : ChunkedWriter H) (w : W)
      → IsPart st.current_file
      → P w
      → Ends P (λ chunks. P) (finish out digest raw st w)
  unfolding finish
  finish-Frame raw st w part p =
      Ends-bind (finalize_file out digest raw st st.current_file w) _
        (finalize-Frame raw st st.current_file w refl part p)
        (λ st₁ w₁ p₁ q₁. Ends-done st₁.written_chunks w₁ p₁ p₁)
