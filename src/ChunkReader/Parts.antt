-- ===== src/ChunkReader/Parts.antt =====
-- The files that the writer of src/service/executor/write_dest.rs fills, between its calls.
use bbkar.Common.{ℕ, ◌+◌, ◌^◌, ◌≤◌, ◌<◌, ◌≡◌, ◌≢◌, refl, sym, ap, ◌∙◌, subst, arith}
use bbkar.Common.{Option, none, some, List, [], ◌∷◌, ◌++◌, map, take}
use bbkar.Common.{All, All-append, All-imp, Bool-cases, inl, inr, ◌⊎◌}
use mathlib.Core.List.{append-nil, append_assoc}
use bbkar.Common.Br.{ok}
use bbkar.Common.Io.{Ends, Ends-bind, Ends-done, Anything}
use bbkar.Common.Text.{Text}
use bbkar.ChunkReader.Stream.{joined}
use bbkar.ChunkWriter.{
  Bytes, Output, Digest, ChunkedWriter, part_name, closed, chunk_entry, finalize_file, start_write,
  next_part,
}
use bbkar.ChunkWriter.{opened, roll_next, must_roll}
use bbkar.ChunkWriter.Names.{part_name-injective}
use bbkar.ChunkWriter.Sizes.{TakesPart}
use bbkar.Dest.{ChunkFilename}

-- The files of an output: an open makes an empty one, a write adds what it takes to its file, and
-- nothing else changes the contents.
pub record IsFiles {W : Type 0} (out : Output W) (content : W → Text → Bytes) : Type 0 where
  pub open_empty :
      (f : Text) (w : W) → (out.open_chunk f w).0 ≡ ok tt → content (out.open_chunk f w).1 f ≡ []
  pub open_other : (f u : Text) (w : W) → u ≢ f → content (out.open_chunk f w).1 u ≡ content w u
  pub write_appends :
      (f : Text) (buf : Bytes) (w : W) (n : ℕ)
      → (out.write_chunk f buf w).0 ≡ ok n
      → content (out.write_chunk f buf w).1 f ≡ content w f ++ take n buf
  pub write_other :
      (f u : Text) (buf : Bytes) (w : W)
      → u ≢ f
      → content (out.write_chunk f buf w).1 u ≡ content w u
  pub close_keeps : (f u : Text) (w : W) → content (out.close_chunk f w).1 u ≡ content w u

-- The name of an earlier part than the k-th
abbrev pub Older : ℕ → ChunkFilename → Type 0
Older k c = (i : ℕ) × (c.filename ≡ part_name i) × (i < k)

abbrev pub names_of : List ChunkFilename → List Text
names_of = map (λ c. c.filename)

joined-append :
    (contents : Text → Bytes) (l : List ChunkFilename) (c : ChunkFilename)
    → joined contents (names_of (l ++ c ∷ [])) ≡ joined contents (names_of l) ++ contents c.filename
joined-append contents [] c = append-nil (contents c.filename)
joined-append contents (d ∷ l) c =
    ap (λ b. contents d.filename ++ b) (joined-append contents l c)
    ∙ sym (append_assoc (contents d.filename) (joined contents (names_of l)) (contents c.filename))

-- Earlier parts are other files.
pub joined-Older :
    (c c' : Text → Bytes) (k : ℕ) (l : List ChunkFilename)
    → ((u : Text) → u ≢ part_name k → c' u ≡ c u)
    → All (Older k) l
    → joined c' (names_of l) ≡ joined c (names_of l)
joined-Older c c' k [] others all = refl
joined-Older c c' k (d ∷ l) others ((i, named, less), all) =
    let other : d.filename ≢ part_name k =
      λ h. absurd (omega (arith, part_name-injective i k (sym named ∙ h))) in
    rw (others d.filename other, joined-Older c c' k l others all) refl

module _ {W H : Type 0} (out : Output W) (digest : Digest H) {content : W → Text → Bytes}
    (files : IsFiles out content) (takes : TakesPart out) where
  -- No file is open, and the closed ones hold `bytes`.
  pub record IsShut (bytes : Bytes) (st : ChunkedWriter H) (w : W) : Type 0 where
    pub no_file : st.current_file ≡ none
    pub data_shut : joined (content w) (names_of st.written_chunks) ≡ bytes
    pub older_shut : All (Older (st.part_number + 1)) st.written_chunks

  -- The file of the last part is open, and holds the end of `bytes`.
  pub record IsOpen (bytes : Bytes) (st : ChunkedWriter H) (w : W) : Type 0 where
    pub file_is : st.current_file ≡ some (part_name st.part_number)
    pub name_is : st.current_filename ≡ part_name st.part_number
    pub data_open :
        joined (content w) (names_of st.written_chunks) ++ content w (part_name st.part_number)
        ≡ bytes
    pub older_open : All (Older st.part_number) st.written_chunks

  abbrev pub HasWritten : Bytes → ChunkedWriter H → W → Type 0
  HasWritten bytes st w = IsShut bytes st w ⊎ IsOpen bytes st w

  abbrev pub AfterClose : ℕ → Bytes → ChunkedWriter H → W → Type 0
  AfterClose part bytes st w = IsShut bytes st w × (st.part_number ≡ part)

  closed-IsShut :
      (raw : ℕ) (bytes : Bytes) (st : ChunkedWriter H) (w w' : W)
      → ((u : Text) → content w' u ≡ content w u)
      → IsOpen bytes st w
      → IsShut bytes (closed out digest raw st) w'
  unfolding closed chunk_entry
  closed-IsShut raw bytes st w w' same o = record {
    no_file = refl;
    data_shut =
        joined-append (content w') st.written_chunks _
        ∙ ap (λ b. joined (content w') (names_of st.written_chunks) ++ b)
            (ap (content w') o.name_is ∙ same (part_name st.part_number))
        ∙ ap (λ b. b ++ content w (part_name st.part_number))
            (joined-Older (content w) (content w') st.part_number st.written_chunks (λ u h. same u)
              o.older_open)
        ∙ o.data_open;
    older_shut =
        All-append (Older (st.part_number + 1)) st.written_chunks _
          (All-imp (λ c q. (q.0, q.1, omega (arith, q.2))) st.written_chunks o.older_open)
          ((st.part_number, o.name_is, omega arith), tt);
  }

  pub finalize-Ends :
      (raw : ℕ) (bytes : Bytes) (st : ChunkedWriter H) (file : Option Text) (w : W)
      → st.current_file ≡ file
      → HasWritten bytes st w
      → Ends Anything (AfterClose st.part_number bytes) (finalize_file out digest raw st file w)
  unfolding finalize_file closed
  finalize-Ends raw bytes st none w e (inl s) = Ends-done st w tt (s, refl)
  finalize-Ends raw bytes st none w e (inr o) = ground (arith, o.file_is)
  finalize-Ends raw bytes st (some f) w e (inl s) = ground (arith, s.no_file)
  finalize-Ends raw bytes st (some f) w e (inr o) =
      Ends-bind {Q = λ u w'. (x : Text) → content w' x ≡ content w x} (out.close_chunk f w) _
        (record { always = tt; on_ok = λ u h x. files.close_keeps f x w })
        (λ u w₁ p same.
          Ends-done (closed out digest raw st) w₁ tt (closed-IsShut raw bytes st w w₁ same o, refl))

  opened-IsOpen :
      (bytes : Bytes) (st : ChunkedWriter H) (w w' : W)
      → st.part_number + 1 < 2 ^ 32
      → content w' (part_name (next_part out digest st)) ≡ []
      → ((u : Text) → u ≢ part_name (next_part out digest st) → content w' u ≡ content w u)
      → IsShut bytes st w
      → IsOpen bytes (opened out digest st) w'
  unfolding opened
  opened-IsOpen bytes st w w' small empty others s =
      let next : st.part_number + 1 ≡ next_part out digest st = omega arith in
      let older : All (Older (next_part out digest st)) st.written_chunks =
        subst (λ k. All (Older k) st.written_chunks) next s.older_shut in
      record {
        file_is = refl;
        name_is = refl;
        data_open =
            ap (λ b. joined (content w') (names_of st.written_chunks) ++ b) empty
            ∙ append-nil (joined (content w') (names_of st.written_chunks))
            ∙ joined-Older (content w) (content w') (next_part out digest st) st.written_chunks
                others older
            ∙ s.data_shut;
        older_open = older;
      }

  -- A file is open after the start of a write, and at most one part has begun.
  abbrev pub AfterStart : ℕ → Bytes → ChunkedWriter H → W → Type 0
  AfterStart part bytes st w = IsOpen bytes st w × (st.part_number ≤ part + 1)

  abbrev AfterOpen : W → Text → Unit {0} → W → Type 0
  AfterOpen w f u w' = (content w' f ≡ []) × ((x : Text) → x ≢ f → content w' x ≡ content w x)

  roll_next-Ends :
      (raw : ℕ) (bytes : Bytes) (st : ChunkedWriter H) (w : W)
      → st.part_number + 1 < 2 ^ 32
      → HasWritten bytes st w
      → Ends Anything (AfterStart st.part_number bytes) (roll_next out digest raw st w)
  unfolding roll_next opened
  roll_next-Ends raw bytes st w small h =
      Ends-bind (finalize_file out digest raw st st.current_file w) _
        (finalize-Ends raw bytes st st.current_file w refl h)
        (λ st₁ w₁ p₁ q₁.
          let name = part_name (next_part out digest st₁) in
          Ends-bind {Q = AfterOpen w₁ name} (out.open_chunk name w₁) _
            (record {
              always = tt;
              on_ok = λ u e. (files.open_empty name w₁ e, λ x k. files.open_other name x w₁ k);
            })
            (λ u w₂ p₂ q₂. Ends-done (opened out digest st₁) w₂ tt (
              opened-IsOpen bytes st₁ w₁ w₂ (omega (arith, q₁.1)) q₂.0 q₂.1 q₁.0,
              omega (arith, q₁.1),
            )))

  pub start_write-Ends :
      (raw : ℕ) (bytes : Bytes) (st : ChunkedWriter H) (w : W)
      → st.part_number + 1 < 2 ^ 32
      → HasWritten bytes st w
      → Ends Anything (AfterStart st.part_number bytes) (start_write out digest raw st w)
  unfolding start_write must_roll
  start_write-Ends raw bytes st w small h = elim (Bool-cases (must_roll out digest st)) [
    | inl full ↦ rw full (roll_next-Ends raw bytes st w small h)
    | inr fits ↦ rw fits (elim h [
      | inl s ↦ ground (arith, fits, s.no_file)
      | inr o ↦ Ends-done st w tt (o, omega arith)
    ])
  ]
