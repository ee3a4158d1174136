-- ===== src/ChunkWriter/Sizes.antt =====
-- The sizes that the chunk writer records.
use bbkar.Common.{ℕ, ◌+◌, ◌*◌, ◌%◌, ◌^◌, ◌≤◌, ◌<◌, ◌≡◌, refl, subst, arith}
use bbkar.Common.{true, false, Option, none, some, List, [], ◌∷◌, ◌++◌, length}
use bbkar.Common.{All, All-append, is_some, Bool-cases, inl, inr}
use bbkar.Common.Br.{ok, unwrap, unwrap-some}
use bbkar.Common.Io.{Ends, Ends-bind, Ends-done, Ends-lift, Ends-any, Anything}
use bbkar.ChunkWriter.{
  Bytes, Output, Digest, ChunkedWriter, part_name, closed, chunk_entry, finalize_file, start_write,
  next_part,
}
use bbkar.ChunkWriter.{
  opened, roll_next, must_roll, write, finish, write_calls, write_subvolume_to_dest,
  write_and_finish, new,
}
use bbkar.Common.Text.{Text}
use bbkar.Dest.{ChunkFilename, add_u64}

-- The recorded sizes, added up
abbrev pub sum_of : List ChunkFilename → ℕ
sum_of [] = 0
sum_of (c ∷ l) = c.size + sum_of l

sum_of-append :
    (l : List ChunkFilename) (c : ChunkFilename) → sum_of (l ++ c ∷ []) ≡ sum_of l + c.size
sum_of-append [] c = omega arith
sum_of-append (d ∷ l) c = omega (arith, sum_of-append l c)

abbrev pub TakesPart : {W : Type 0} → Output W → Type 0
TakesPart {W} out =
    (file : Text) (buf : Bytes) (w : W) (n : ℕ)
    → (out.write_chunk file buf w).0 ≡ ok n
    → n ≤ length buf

abbrev pub BuffersUpTo : ℕ → List (ℕ × Bytes) → Type 0
BuffersUpTo bound = All (λ c. length c.1 ≤ bound)

abbrev pub SizesBelow : ℕ → List ChunkFilename → Type 0
SizesBelow limit = All (λ c. c.size < limit)

abbrev open_size : Option Text → ℕ → ℕ
open_size none n = 0
open_size (some file) n = n

-- The bytes of the closed chunks and of the open one
abbrev total : {H : Type 0} → ChunkedWriter H → ℕ
total st = sum_of st.written_chunks + open_size st.current_file st.current_size

module _ {W H : Type 0} (out : Output W) (digest : Digest H) (max bound : ℕ) (positive : 0 < max)
    (small : max + bound ≤ 2 ^ 32) (takes : TakesPart out) where
  record IsBounded (st : ChunkedWriter H) : Type 0 where
    max_is : st.max_chunk_bytes ≡ max
    current : st.current_size < max + bound
    written : SizesBelow (max + bound) st.written_chunks

  abbrev Always : W → Type 0
  Always = Anything

  abbrev AfterClose : ℕ → ChunkedWriter H → W → Type 0
  AfterClose n st w = IsBounded st × (total st ≡ n) × (st.current_file ≡ none)

  size_small : (n : ℕ) → n < max + bound → n % 2 ^ 32 ≡ n
  size_small n h = omega arith

  closed-total :
      (raw : ℕ) (st : ChunkedWriter H)
      → IsBounded st
      → total (closed out digest raw st) ≡ sum_of st.written_chunks + st.current_size
  unfolding closed chunk_entry
  closed-total raw st b = omega (
    arith,
    size_small st.current_size b.current,
    sum_of-append st.written_chunks (chunk_entry out digest raw st),
  )

  opened-total :
      (st : ChunkedWriter H) (n : ℕ)
      → st.current_file ≡ none
      → total st ≡ n
      → total (opened out digest st) ≡ n
  unfolding opened
  opened-total st n e h = ground (arith, h)

  finalize_file-Ends :
      (raw : ℕ) (st : ChunkedWriter H) (file : Option Text) (w : W)
      → st.current_file ≡ file
      → IsBounded st
      → Ends Always
          (AfterClose (sum_of st.written_chunks + open_size file st.current_size))
          (finalize_file out digest raw st file w)
  unfolding finalize_file closed chunk_entry
  finalize_file-Ends raw st none w e b = Ends-done st w tt (b, rw e refl, e)
  finalize_file-Ends raw st (some file) w e b =
      let size = size_small st.current_size b.current in
      Ends-bind (out.close_chunk file w) _ (Ends-any _) (λ u w₁ p₁ q₁. Ends-done _ w₁ tt (
        record {
          max_is = b.max_is;
          current = b.current;
          written =
              All-append (λ c. c.size < max + bound) st.written_chunks _ b.written
                (rw size b.current, tt);
        },
        closed-total raw st b,
        refl,
      ))

  abbrev AfterRoll : ℕ → ChunkedWriter H → W → Type 0
  AfterRoll n st w =
      IsBounded st × (total st ≡ n) × (st.current_size < max) × (is_some st.current_file ≡ true)

  roll_next-Ends :
      (raw : ℕ) (st : ChunkedWriter H) (w : W)
      → IsBounded st
      → Ends Always (AfterRoll (total st)) (roll_next out digest raw st w)
  unfolding roll_next opened
  roll_next-Ends raw st w b =
      Ends-bind (finalize_file out digest raw st st.current_file w) _
        (finalize_file-Ends raw st st.current_file w refl b)
        (λ st₁ w₁ p₁ q₁.
          let (b₁, same, no_file) = q₁ in
          let below : 0 < max + bound = omega arith in
          Ends-bind (out.open_chunk (part_name (next_part out digest st₁)) w₁) _ (Ends-any _)
            (λ u w₂ p₂ q₂. Ends-done (opened out digest st₁) w₂ tt (
              record { max_is = b₁.max_is; current = below; written = b₁.written },
              opened-total st₁ _ no_file same,
              positive,
              refl,
            )))

  abbrev Wrote : ℕ → ChunkedWriter H → ℕ → Type 0
  Wrote n st m = IsBounded st × (total st ≡ n + m)

  abbrev AfterWrite : ℕ → ChunkedWriter H × ℕ → W → Type 0
  AfterWrite n p w = Wrote n p.0 p.1

  must_roll-false :
      (st : ChunkedWriter H)
      → must_roll out digest st ≡ false
      → (st.current_size < st.max_chunk_bytes) × (is_some st.current_file ≡ true)
  unfolding must_roll
  must_roll-false st h = (ground arith, ground arith)

  start_write-Ends :
      (raw : ℕ) (st : ChunkedWriter H) (w : W)
      → IsBounded st
      → Ends Always (AfterRoll (total st)) (start_write out digest raw st w)
  unfolding start_write
  start_write-Ends raw st w b = elim (Bool-cases (must_roll out digest st)) [
    | inl full ↦ rw full (roll_next-Ends raw st w b)
    | inr fits ↦ rw fits (
        Ends-done st w tt
          (b, refl, rw b.max_is at (must_roll-false st fits).0, (must_roll-false st fits).1))
  ]

  after-write :
      (st : ChunkedWriter H) (file : Text) (n m : ℕ) (h : H)
      → st.current_size < max
      → n ≤ bound
      → IsBounded st
      → st.current_file ≡ some file
      → total st ≡ m
      → Wrote m (record st { current_hasher = h; current_size = add_u64 st.current_size n }) n
  after-write st file n m h below fits b there same =
      let size : add_u64 st.current_size n ≡ st.current_size + n = omega arith in
      (
        record { max_is = b.max_is; current = rw size (omega arith); written = b.written },
        ground (arith, size, same, there),
      )

  write-Ends :
      (raw : ℕ) (st : ChunkedWriter H) (buf : Bytes) (w : W)
      → length buf ≤ bound
      → IsBounded st
      → Ends Always (AfterWrite (total st)) (write out digest raw st buf w)
  unfolding write
  write-Ends raw st buf w h b =
      Ends-bind (start_write out digest raw st w) _ (start_write-Ends raw st w b) (λ st₁ w₁ p₁ q₁.
        let (b₁, same, below, there) = q₁ in
        Ends-bind {Q = λ file w'. st₁.current_file ≡ some file} (unwrap st₁.current_file, w₁) _
          (Ends-lift _ w₁ tt (unwrap-some st₁.current_file))
          (λ file w₂ p₂ q₂.
            Ends-bind {Q = λ n w'. n ≤ length buf} (out.write_chunk file buf w₂) _
              (record { always = tt; on_ok = takes file buf w₂ })
              (λ n w₃ p₃ q₃.
                Ends-done _ w₃ tt (after-write st₁ file n _ _ below (omega arith) b₁ q₂ same))))

  AfterCalls : ℕ → ChunkedWriter H × ℕ → W → Type 0
  AfterCalls n p w = Wrote n p.0 p.1

  write_calls-Ends :
      (st : ChunkedWriter H) (calls : List (ℕ × Bytes)) (w : W)
      → BuffersUpTo bound calls
      → IsBounded st
      → Ends Always (AfterCalls (total st)) (write_calls out digest st calls w)
  unfolding write_calls AfterCalls
  write_calls-Ends st [] w h b = Ends-done (st, 0) w tt (b, omega arith)
  write_calls-Ends st ((raw, buf) ∷ calls) w h b =
      Ends-bind (write out digest raw st buf w) _ (write-Ends raw st buf w h.0 b) (λ p w₁ p₁ q₁.
        Ends-bind (write_calls out digest p.0 calls w₁) _ (write_calls-Ends p.0 calls w₁ h.1 q₁.0)
          (λ r w₂ p₂ q₂. Ends-done (r.0, p.1 + r.1) w₂ tt (q₂.0, omega (arith, q₁.1, q₂.1))))

  AfterFinish : ℕ → List ChunkFilename → W → Type 0
  AfterFinish n chunks w = (sum_of chunks ≡ n) × SizesBelow (max + bound) chunks

  finish-Ends :
      (raw : ℕ) (st : ChunkedWriter H) (w : W)
      → IsBounded st
      → Ends Always (AfterFinish (total st)) (finish out digest raw st w)
  unfolding finish AfterFinish
  finish-Ends raw st w b =
      Ends-bind (finalize_file out digest raw st st.current_file w) _
        (finalize_file-Ends raw st st.current_file w refl b)
        (λ st₁ w₁ p₁ q₁.
          Ends-done st₁.written_chunks w₁ tt (ground (arith, q₁.1, q₁.2), q₁.0.written))

  new-IsBounded : IsBounded (new out digest max)
  unfolding new
  new-IsBounded = record { max_is = refl; current = omega arith; written = tt }

  new-total : total (new out digest max) ≡ 0
  unfolding new
  new-total = refl

  AfterAll : List ChunkFilename × ℕ → W → Type 0
  AfterAll p w = (sum_of p.0 ≡ p.1) × SizesBelow (max + bound) p.0

  writer-Ends :
      (calls : List (ℕ × Bytes)) (raw : ℕ) (w : W)
      → BuffersUpTo bound calls
      → Ends Always AfterAll (write_and_finish out digest max calls raw w)
  unfolding write_and_finish AfterCalls AfterFinish AfterAll
  writer-Ends calls raw w h =
      Ends-bind (write_calls out digest (new out digest max) calls w) _
        (write_calls-Ends (new out digest max) calls w h new-IsBounded)
        (λ p w₁ p₁ q₁.
          Ends-bind (finish out digest raw p.0 w₁) _ (finish-Ends raw p.0 w₁ q₁.0)
            (λ chunks w₂ p₂ q₂.
              Ends-done (chunks, p.1) w₂ tt (omega (arith, q₂.0, q₁.1, new-total), q₂.1)))

-- If the chunk size is from 1 to 2048 MiB and no buffer is longer than `bound`, of at most 2 GiB,
-- then the recorded sizes of the chunks that a successful write returns add up to the bytes
-- written, and each is less than the chunk size and `bound` together, so that no size is cut to 32
-- bits. A write of the output takes no more than its buffer.
pub write_subvolume_to_dest-SizesBelow :
    {W H : Type 0} (out : Output W) (digest : Digest H) (mib bound : ℕ) (calls : List (ℕ × Bytes))
    (raw : ℕ) (w : W) {chunks : List ChunkFilename} {written : ℕ}
    → TakesPart out
    → 1 ≤ mib
    → mib ≤ 2048
    → bound ≤ 2 ^ 31
    → BuffersUpTo bound calls
    → (write_subvolume_to_dest out digest mib calls raw w).0 ≡ ok (chunks, written)
    → (sum_of chunks ≡ written) × SizesBelow (mib * 2 ^ 20 + bound) chunks
unfolding write_subvolume_to_dest AfterAll
write_subvolume_to_dest-SizesBelow out digest mib bound calls raw w {chunks} {written} takes low
      high fits buffers e =
    let max = mib * 1024 * 1024 % 2 ^ 64 in
    let same : max ≡ mib * 2 ^ 20 = omega arith in
    let positive : 0 < max = omega arith in
    let small : max + bound ≤ 2 ^ 32 = omega arith in
    let ends = writer-Ends out digest max bound positive small takes calls raw w buffers in
    subst (λ m. (sum_of chunks ≡ written) × SizesBelow (m + bound) chunks) same
      (ends.on_ok (chunks, written) e)
