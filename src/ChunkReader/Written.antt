-- ===== src/ChunkReader/Written.antt =====
-- What the reader of src/service/executor/read_dest.rs finds in the files that the writer of
-- src/service/executor/write_dest.rs leaves.
use bbkar.Common.{
  ℕ, zero, suc, ◌+◌, ◌*◌, ◌^◌, ◌≤◌, ◌<◌, ◌%◌, ◌≡◌, ◌≢◌, refl, sym, ap, ◌∙◌, subst, arith,
}
use bbkar.Common.{List, [], ◌∷◌, ◌++◌, length, length-append, take}
use bbkar.Common.{inl, inr}
use mathlib.Core.List.{append-nil, append_assoc}
use bbkar.Common.Br.{Br, ok, unwrap, unwrap-some}
use bbkar.Common.Io.{Io, ◌>>=◌, done, Ends-known, Ends, Ends-bind, Ends-done, Ends-lift, Anything}
use bbkar.Common.Text.{Text}
use bbkar.ChunkReader.Stream.{joined, unread}
use bbkar.ChunkReader
use bbkar.ChunkWriter.{Bytes, Output, Digest, ChunkedWriter, part_name, finalize_file, start_write}
use bbkar.ChunkWriter.{write, finish, write_calls, write_subvolume_to_dest, write_and_finish, new}
use bbkar.ChunkWriter.Sizes.{TakesPart}
use bbkar.Dest.{ChunkFilename, VolumeArchive}
use bbkar.ChunkReader.Parts.{
  IsFiles, names_of, joined-Older, IsOpen, HasWritten, finalize-Ends, start_write-Ends,
}

-- What calls give of their buffers, if each is answered how many bytes it has taken
abbrev pub accepted : List (ℕ × Bytes) → List ℕ → Bytes
accepted [] ns = []
accepted (call ∷ calls) [] = []
accepted ((raw, buf) ∷ calls) (n ∷ ns) = take n buf ++ accepted calls ns

-- The output answers a write of `buf`, in some world, that it has taken `n` bytes.
abbrev pub IsAnswer : {W : Type 0} → Output W → Bytes → ℕ → Type 0
IsAnswer {W} out buf n = (f : Text) × (w : W) × ((out.write_chunk f buf w).0 ≡ ok n)

abbrev pub AreAnswers : {W : Type 0} → Output W → List (ℕ × Bytes) → List ℕ → Type 0
AreAnswers out [] [] = Unit
AreAnswers out [] (n ∷ ns) = ⊥
AreAnswers out (call ∷ calls) [] = ⊥
AreAnswers out ((raw, buf) ∷ calls) (n ∷ ns) = IsAnswer out buf n × AreAnswers out calls ns

module _ {W H : Type 0} (out : Output W) (digest : Digest H) where
  -- The answers of the writes that calls make, one after the other
  pub answers : ChunkedWriter H → List (ℕ × Bytes) → Io W (List ℕ)
  unfolding write
  answers st [] = done []
  answers st ((raw, buf) ∷ calls) = do
    (st', n) ← write out digest raw st buf
    ns ← answers st' calls
    done (n ∷ ns)

length-take : (n : ℕ) (xs : Bytes) → n ≤ length xs → length (take n xs) ≡ n
length-take zero [] h = refl
length-take zero (x ∷ xs) h = refl
length-take (suc n) [] h = absurd (omega arith)
length-take (suc n) (x ∷ xs) h = omega (arith, length-take n xs (omega arith))

module _ {W H : Type 0} (out : Output W) (digest : Digest H) {content : W → Text → Bytes}
    (files : IsFiles out content) (takes : TakesPart out) where
  abbrev AfterWrite : ℕ → Bytes → Bytes → ChunkedWriter H × ℕ → W → Type 0
  AfterWrite part bytes buf p w =
      IsOpen out digest files takes (bytes ++ take p.1 buf) p.0 w
      × (p.1 ≤ length buf)
      × (p.0.part_number ≤ part + 1)
      × IsAnswer out buf p.1

  -- What a write of `n` bytes of `buf` does to the files
  abbrev Appended : W → Text → Bytes → ℕ → W → Type 0
  Appended w f buf n w' =
      (content w' f ≡ content w f ++ take n buf) × ((x : Text) → x ≢ f → content w' x ≡ content w x)

  written-IsOpen :
      (bytes buf : Bytes) (st : ChunkedWriter H) (hash : H) (size n : ℕ) (w w' : W)
      → Appended w (part_name st.part_number) buf n w'
      → IsOpen out digest files takes bytes st w
      → IsOpen out digest files takes
          (bytes ++ take n buf)
          (record st { current_hasher = hash; current_size = size })
          w'
  written-IsOpen bytes buf st hash size n w w' (added, others) o =
      let name = part_name st.part_number in
      let before = joined (content w) (names_of st.written_chunks) in
      record {
        file_is = o.file_is;
        name_is = o.name_is;
        data_open =
            ap (λ b. b ++ content w' name)
              (joined-Older (content w) (content w') st.part_number st.written_chunks others
                o.older_open)
            ∙ ap (λ b. before ++ b) added
            ∙ sym (append_assoc before (content w name) (take n buf))
            ∙ ap (λ b. b ++ take n buf) o.data_open;
        older_open = o.older_open;
      }

  write-Ends :
      (raw : ℕ) (bytes buf : Bytes) (st : ChunkedWriter H) (w : W)
      → st.part_number + 1 < 2 ^ 32
      → HasWritten out digest files takes bytes st w
      → Ends Anything (AfterWrite st.part_number bytes buf) (write out digest raw st buf w)
  unfolding write
  write-Ends raw bytes buf st w small h =
      Ends-bind (start_write out digest raw st w) _
        (start_write-Ends out digest files takes raw bytes st w small h)
        (λ st₁ w₁ p₁ q₁.
          Ends-bind
            {Q = λ file w'.
              (part_name st₁.part_number ≡ file) × IsOpen out digest files takes bytes st₁ w'}
            (unwrap st₁.current_file, w₁) _
            (Ends-lift _ w₁ tt
              (λ file e. (ground (arith, unwrap-some st₁.current_file file e, q₁.0.file_is), q₁.0)))
            (λ file w₂ p₂ q₂.
              Ends-bind
                {Q = λ n w'. (n ≤ length buf) × IsAnswer out buf n × Appended w₂ file buf n w'}
                (out.write_chunk file buf w₂) _
                (record {
                  always = tt;
                  on_ok = λ n e. (
                    takes file buf w₂ n e,
                    (file, w₂, e),
                    (files.write_appends file buf w₂ n e, λ x k. files.write_other file x buf w₂ k),
                  );
                })
                (λ n w₃ p₃ q₃.
                  let appended = subst (λ f. Appended w₂ f buf n w₃) (sym q₂.0) q₃.2 in
                  Ends-done _ w₃ tt
                    (written-IsOpen bytes buf st₁ _ _ n w₂ w₃ appended q₂.1, q₃.0, q₁.1, q₃.1))))

  abbrev AfterCalls : Bytes → List (ℕ × Bytes) → Br (List ℕ) → ChunkedWriter H × ℕ → W → Type 0
  AfterCalls bytes calls answered p w =
      (ns : List ℕ) × (answered ≡ ok ns)
      × AreAnswers out calls ns
      × (length (accepted calls ns) ≡ p.1)
      × HasWritten out digest files takes (bytes ++ accepted calls ns) p.0 w

  write_calls-Ends :
      (bytes : Bytes) (st : ChunkedWriter H) (calls : List (ℕ × Bytes)) (w : W)
      → st.part_number + length calls < 2 ^ 32
      → HasWritten out digest files takes bytes st w
      → Ends Anything
          (AfterCalls bytes calls (answers out digest st calls w).0)
          (write_calls out digest st calls w)
  unfolding write_calls answers
  write_calls-Ends bytes st [] w small h =
      Ends-done (st, 0) w tt
        (
          [],
          refl,
          tt,
          refl,
          subst (λ b. HasWritten out digest files takes b st w) (sym (append-nil bytes)) h,
        )
  write_calls-Ends bytes st ((raw, buf) ∷ calls) w small h =
      Ends-bind (write out digest raw st buf w) _
        (Ends-known _ (write-Ends raw bytes buf st w (omega arith) h))
        (λ p w₁ p₁ (q₁, ran).
          Ends-bind (write_calls out digest p.0 calls w₁) _
            (write_calls-Ends (bytes ++ take p.1 buf) p.0 calls w₁ (omega (arith, q₁.2)) (inr q₁.0))
            (λ r w₂ p₂ q₂.
              let (ns, answered, are, total, written) = q₂ in
              Ends-done (r.0, p.1 + r.1) w₂ tt
                (
                  p.1 ∷ ns,
                  rw ran (ground (arith, answered)),
                  (q₁.3, are),
                  length-append (take p.1 buf) (accepted calls ns)
                      ∙ omega (arith, length-take p.1 buf q₁.1, total),
                  subst (λ b. HasWritten out digest files takes b r.0 w₂)
                      (append_assoc bytes (take p.1 buf) (accepted calls ns)) written,
                )))

  abbrev HoldsAccepted : List (ℕ × Bytes) → Br (List ℕ) → List ChunkFilename × ℕ → W → Type 0
  HoldsAccepted calls answered p w =
      (ns : List ℕ) × (answered ≡ ok ns)
      × AreAnswers out calls ns
      × (length (accepted calls ns) ≡ p.1)
      × (joined (content w) (names_of p.0) ≡ accepted calls ns)

  writer-Ends :
      (max : ℕ) (calls : List (ℕ × Bytes)) (raw : ℕ) (w : W)
      → length calls < 2 ^ 32
      → Ends Anything
          (HoldsAccepted calls (answers out digest (new out digest max) calls w).0)
          (write_and_finish out digest max calls raw w)
  unfolding write_and_finish new finish
  writer-Ends max calls raw w small =
      Ends-bind (write_calls out digest (new out digest max) calls w) _
        (write_calls-Ends [] (new out digest max) calls w (omega arith)
          (inl (record { no_file = refl; data_shut = refl; older_shut = tt })))
        (λ p w₁ p₁ q₁.
          let (ns, answered, are, total, written) = q₁ in
          Ends-bind (finish out digest raw p.0 w₁) _
            (Ends-bind {R = λ chunks w'. joined (content w') (names_of chunks) ≡ accepted calls ns}
              (finalize_file out digest raw p.0 p.0.current_file w₁) _
              (finalize-Ends out digest files takes raw (accepted calls ns) p.0 p.0.current_file w₁
                refl written)
              (λ st w₂ p₂ q₂. Ends-done st.written_chunks w₂ tt q₂.0.data_shut))
            (λ chunks w₂ p₂ q₂. Ends-done (chunks, p.1) w₂ tt (ns, answered, are, total, q₂)))

-- For an output that keeps files, takes no more of a buffer than it has, and fewer than 2 ^ 32
-- calls
-- of the encoder: if the write of a subvolume succeeds, then the writes of the calls, one after the
-- other, have each answered a number of bytes, which is an answer of the output to a write of the
-- call's buffer, and what a reader of an archive with the returned chunks has to yield is that
-- number
-- of bytes of each call's buffer, in the order of the calls. It is as long as the count that the
-- write
-- returns.
pub write_subvolume_to_dest-unread :
    {W H : Type 0} (out : Output W) (digest : Digest H) {content : W → Text → Bytes} (mib : ℕ)
    (calls : List (ℕ × Bytes)) (raw : ℕ) (w : W) (archive : VolumeArchive) {written : ℕ}
    → IsFiles out content
    → TakesPart out
    → length calls < 2 ^ 32
    → (write_subvolume_to_dest out digest mib calls raw w).0 ≡ ok (archive.chunks, written)
    → (ns : List ℕ) × ((answers out digest (new out digest (mib * 1024 * 1024 % 2 ^ 64)) calls w).0
        ≡ ok ns)
      × AreAnswers out calls ns
      × (unread
            (content (write_subvolume_to_dest out digest mib calls raw w).1)
            (ChunkReader.new archive)
          ≡ accepted calls ns)
      × (length (accepted calls ns) ≡ written)
unfolding write_subvolume_to_dest ChunkReader.new
write_subvolume_to_dest-unread out digest mib calls raw w archive files takes small e =
    let (ns, answered, are, total, same) =
      (writer-Ends out digest files takes (mib * 1024 * 1024 % 2 ^ 64) calls raw w small).on_ok
        (archive.chunks, _) e in
    (ns, answered, are, same, total)
