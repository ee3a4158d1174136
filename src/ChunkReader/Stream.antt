-- ===== src/ChunkReader/Stream.antt =====
-- The reader yields the contents of the chunks in their order.
use bbkar.Common.{ℕ, zero, suc, ◌+◌, ◌≤◌, ◌<◌, ◌≡◌, refl, sym, ap, ◌∙◌, arith, Option, none, some}
use bbkar.Common.{List, [], ◌∷◌, ◌++◌, length, take, drop, drop-drop, inl, inr, ◌⊎◌, ◌≢◌}
use mathlib.Core.List.{append_assoc}
use bbkar.Common.Br.{Br, ok}
use bbkar.Common.Text.{Text}
use bbkar.ChunkReader.{
  ChunkStreamReader, cursor_read, cursor_rest, load_first, load_next_chunk, read,
}
use bbkar.ChunkWriter.{Bytes}

take-drop : (n : ℕ) (xs : Bytes) → take n xs ++ drop n xs ≡ xs
take-drop zero [] = refl
take-drop zero (x ∷ xs) = refl
take-drop (suc n) [] = refl
take-drop (suc n) (x ∷ xs) = ap (λ l. x ∷ l) (take-drop n xs)

take-length : (n : ℕ) (xs : Bytes) → length (take n xs) ≤ n
take-length n [] = omega arith
take-length zero (x ∷ xs) = omega arith
take-length (suc n) (x ∷ xs) = omega (arith, take-length n xs)

take-nil : (n : ℕ) (xs : Bytes) → 0 < n → take n xs ≡ [] → xs ≡ []
take-nil n [] pos h = refl
take-nil zero (x ∷ xs) pos h = absurd (omega arith)
take-nil (suc n) (x ∷ xs) pos h = ground arith

Bytes-cases : (l : Bytes) → ((b : ℕ) × (bytes : Bytes) × (l ≡ b ∷ bytes)) ⊎ (l ≡ [])
Bytes-cases [] = inr refl
Bytes-cases (b ∷ bytes) = inl (b, bytes, refl)

cursor_read-length : (size : ℕ) (cursor : Option Bytes) → length (cursor_read size cursor) ≤ size
cursor_read-length size none = omega arith
cursor_read-length size (some bytes) = take-length size bytes

module _ (contents : Text → Bytes) where
  abbrev pub joined : List Text → Bytes
  joined [] = []
  joined (name ∷ names) = contents name ++ joined names

  abbrev pub cursor_bytes : Option Bytes → Bytes
  cursor_bytes none = []
  cursor_bytes (some bytes) = bytes

  -- What the reader has not yielded yet
  abbrev pub unread : ChunkStreamReader → Bytes
  unread st = cursor_bytes st.current_cursor ++ joined (drop st.current_idx st.chunk_filenames)

  unread_split :
      (size : ℕ) (cursor : Option Bytes) (later : Bytes)
      → cursor_bytes cursor ++ later
        ≡ cursor_read size cursor ++ (cursor_bytes (cursor_rest size cursor) ++ later)
  unread_split size none later = refl
  unread_split size (some bytes) later =
      ap (λ l. l ++ later) (sym (take-drop size bytes))
      ∙ append_assoc (take size bytes) (drop size bytes) later

  cursor_read-nil :
      (size : ℕ) (cursor : Option Bytes)
      → 0 < size
      → cursor_read size cursor ≡ []
      → cursor_bytes cursor ≡ []
  cursor_read-nil size none pos h = refl
  cursor_read-nil size (some bytes) pos h = take-nil size bytes pos h

  module _ (read_object : Text → Br Bytes)
      (readable : (name : Text) → read_object name ≡ ok (contents name)) where
    -- One read yields the next bytes, and none only at the end.
    abbrev pub Yields : ℕ → ChunkStreamReader → Bytes × ChunkStreamReader → Type 0
    Yields size st r =
        (unread st ≡ r.0 ++ unread r.1) × (r.0 ≡ [] → unread st ≡ []) × (length r.0 ≤ size)

    Yields-cursor :
        (size : ℕ) (st : ChunkStreamReader)
        → cursor_read size st.current_cursor ≢ []
        → Yields size st (
          cursor_read size st.current_cursor,
          record st { current_cursor = cursor_rest size st.current_cursor },
        )
    Yields-cursor size st h = (
      unread_split size st.current_cursor _,
      λ e. absurd (h e),
      cursor_read-length size st.current_cursor,
    )

    loaded_state : ChunkStreamReader → Text → ChunkStreamReader
    loaded_state st name = record st {
      current_cursor = some (contents name);
      current_idx = st.current_idx + 1;
    }

    drop-next :
        (n : ℕ) (l : List Text) (name : Text) (names : List Text)
        → drop n l ≡ name ∷ names
        → drop (n + 1) l ≡ names
    drop-next n l name names h = sym (drop-drop 1 n l) ∙ ap (drop 1) h

    load-cases :
        (st : ChunkStreamReader)
        → ((drop st.current_idx st.chunk_filenames ≡ [])
            × (load_next_chunk read_object st ≡ ok none))
          ⊎ ((st' : ChunkStreamReader) × (load_next_chunk read_object st ≡ ok (some st'))
              × (unread st' ≡ joined (drop st.current_idx st.chunk_filenames))
              × (length (drop st.current_idx st.chunk_filenames)
                  ≡ suc (length (drop st'.current_idx st'.chunk_filenames))))
    unfolding load_next_chunk loaded_state
    load-cases st = go (drop st.current_idx st.chunk_filenames) refl
      where
        go :
            (l : List Text)
            → drop st.current_idx st.chunk_filenames ≡ l
            → ((l ≡ []) × (load_first read_object st l ≡ ok none))
              ⊎ ((st' : ChunkStreamReader) × (load_first read_object st l ≡ ok (some st'))
                  × (unread st' ≡ joined l)
                  × (length l ≡ suc (length (drop st'.current_idx st'.chunk_filenames))))
        go [] e = inl (refl, refl)
        go (name ∷ names) e =
            let next = drop-next st.current_idx st.chunk_filenames name names e in
            inr (loaded_state st name, ground (arith, readable name), rw next refl, rw next refl)

    -- If every object can be read, a read into a buffer that is not empty ends with as much fuel as
    -- chunks are left and one more: it returns the next bytes of the chunks, one chunk's after the
    -- other's, no more than fit into the buffer, and none only if nothing is left.
    pub read-Yields :
        (fuel size : ℕ) (st : ChunkStreamReader)
        → length (drop st.current_idx st.chunk_filenames) < fuel
        → 0 < size
        → (r : Bytes × ChunkStreamReader) × (read read_object fuel size st ≡ ok r)
          × Yields size st r
    unfolding read load_next_chunk
    read-Yields zero size st h pos = absurd (omega arith)
    read-Yields (suc fuel) size st h pos = elim (Bytes-cases (cursor_read size st.current_cursor)) [
      | inl (b, bytes, e) ↦ (
        (
          cursor_read size st.current_cursor,
          record st { current_cursor = cursor_rest size st.current_cursor },
        ),
        ground (arith, e),
        Yields-cursor size st (λ k. ground (arith, e, k)),
      )
      | inr e ↦
          let at_end = cursor_read-nil size st.current_cursor pos e in
          elim (load-cases st) [
            | inl (no_more, loaded) ↦ (
              ([], st),
              ground (arith, e, loaded),
              (refl, λ k. rw (at_end, no_more) refl, omega arith),
            )
            | inr (st', loaded, same, shorter) ↦
                let (r, returned, yields) = read-Yields fuel size st' (omega arith) pos in
                let equal : unread st ≡ unread st' = rw at_end (sym same) in
                (
                  r,
                  ground (arith, e, loaded, returned),
                  (equal ∙ yields.0, λ k. equal ∙ yields.1 k, yields.2),
                )
          ]
    ]
