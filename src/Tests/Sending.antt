-- ===== src/Tests/Sending.antt =====
-- A `btrfs send` that gives two reads and exits with an error, before an encoder that copies.
use bbkar.Common.{ℕ, ◌≡◌, refl, arith, some, List, [], ◌∷◌, ◌++◌, length}
use bbkar.Common.Br.{ok}
use bbkar.Common.Io.{◌>>=◌, continue, done}
use bbkar.Send.{Bytes, Child, Encoder, process_all, measure_subvolume}
use bbkar.Send.Stream.{Reads, exits, gives, written, from_offset, add_lengths, measure_of}
use bbkar.Send.Stream.{process_all-written, measure_subvolume-written}

abbrev child : Child (List Bytes)
child = record {
  read = λ p. (ok (first p), others p);
  read_stderr = λ p. ([], p);
  wait = λ p. (ok (some 1), p);
}
  where
    first : List Bytes → Bytes
    first [] = []
    first (b ∷ l) = b

    others : List Bytes → List Bytes
    others [] = []
    others (b ∷ l) = l

abbrev output : List Bytes
output = (7 ∷ 8 ∷ []) ∷ (9 ∷ []) ∷ []

output-Reads : Reads child output output (ok tt)
output-Reads = gives 7 (8 ∷ []) refl (gives 9 [] refl (exits [] (some 1) refl refl refl))

-- The world is what the sink has; it gives back its length.
abbrev copier : Encoder Bytes (Unit {0}) ℕ
copier = record { write_all = λ e buf w. (ok tt, w ++ buf); finish = λ e w. (ok (length w), w) }

process_all-written_example :
    process_all copier child 4 tt (from_offset 0) output [] ≡ written copier tt output (ok tt) []
process_all-written_example = process_all-written copier child 4 tt 0 [] output-Reads (omega arith)

measure_subvolume-written_example :
    measure_subvolume copier child 4 (done tt) output []
    ≡ continue
        (done tt [])
        (λ e. written copier e output (ok tt) >>= λ n. done (measure_of (add_lengths 0 output) n))
measure_subvolume-written_example =
    measure_subvolume-written copier child 4 (done tt) [] output-Reads (omega arith)
