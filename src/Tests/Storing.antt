-- ===== src/Tests/Storing.antt =====
-- Storage in memory, with a codec for metadata without archives.
use bbkar.Common.{ℕ, ◌≡◌, ◌≢◌, ◌↔◌, refl, sym, ap, arith, Bool, true, false, ◌&&◌, Option, none}
use bbkar.Common.{◌∙◌, some, List, [], ◌∷◌, ◌++◌, if◌then◌else◌, inr}
use bbkar.Common.Br.{Br, ok, err, yaml, ok_injective}
use bbkar.Common.Io.{Ends}
use bbkar.Common.Sort.{sort}
use bbkar.Common.Text.{Text, text_eq, text_eq_iff}
use bbkar.Config.{DestSpec, local}
use bbkar.Dest.{VolumeArchive, DestMeta}
use bbkar.Storage.{Bytes, Found, data_of, not_found, Storage, Codec, write_metadata_to_dest}
use bbkar.Storage.{inspect_dest_volume}
use bbkar.Storage.Laws.{IsStorage, IsCodec}
use bbkar.Storage.Metadata.{IsAtomic, kept_at, write_metadata_to_dest-IsAtomic}
use bbkar.Storage.Metadata.{inspect_dest_volume-kept_at}
use bbkar.Storage.Components.{components, IsApart, same_base, other_name, IsVolumeName}

path_eq : List Text → List Text → Bool
path_eq [] [] = true
path_eq [] (b ∷ t) = false
path_eq (a ∷ s) [] = false
path_eq (a ∷ s) (b ∷ t) = text_eq a b && path_eq s t

path_eq_iff : (s t : List Text) → (path_eq s t ≡ true) ↔ (s ≡ t)
unfolding path_eq
path_eq_iff [] [] = ground arith
path_eq_iff [] (b ∷ t) = ground arith
path_eq_iff (a ∷ s) [] = ground arith
path_eq_iff (a ∷ s) (b ∷ t) = ground (arith, text_eq_iff a b, path_eq_iff s t)

abbrev pub Memory : Type 0
Memory = List Text → Option Bytes

unfoldable pub put : List Text → Option Bytes → Memory → Memory
unfolding path_eq
put p d w k = if path_eq k p then d else w k

put_self : (p : List Text) (d : Option Bytes) (w : Memory) → put p d w p ≡ d
unfolding put
put_self p d w = ground (arith, path_eq_iff p p)

append_last : (x y : List Text) (a b : Text) → x ++ a ∷ [] ≡ y ++ b ∷ [] → a ≡ b
append_last [] [] a b h = ground arith
append_last [] (c ∷ []) a b h = ground arith
append_last [] (c ∷ d ∷ y) a b h = ground arith
append_last (c ∷ []) [] a b h = ground arith
append_last (c ∷ d ∷ x) [] a b h = ground arith
append_last (c ∷ x) (d ∷ y) a b h = append_last x y a b (ground arith)

append_first : (x a b : List Text) → x ++ a ≡ x ++ b → a ≡ b
append_first [] a b h = h
append_first (c ∷ x) a b h = append_first x a b (ground arith)

-- Paths to different files are different.
apart-distinct : (p k : List Text) → IsApart p k → k ≢ p
apart-distinct p k (same_base base s t hp hk plain_s plain_t other) e =
    other (append_first base s t (sym hp ∙ sym e ∙ hk))
apart-distinct p k (other_name x y a b hp hk plain_a plain_b other) e =
    other (append_last x y a b (sym hp ∙ sym e ∙ hk))

pub put_other :
    (p : List Text) (d : Option Bytes) (w : Memory) (k : List Text)
    → IsApart p k
    → put p d w k ≡ w k
unfolding put
put_other p d w k apart = ground (arith, path_eq_iff k p, apart-distinct p k apart)

abbrev pub found_of : Option Bytes → Found
found_of none = not_found
found_of (some d) = data_of d

abbrev pub under : Text → Text → List Text
under root p = components (root ++ b'/' ∷ p)

unfoldable pub memory : Storage Memory
memory = record {
  create_dir_all = λ p w. (ok tt, w);
  write_file = λ p d w. (ok tt, put (components p) (some d) w);
  rename = λ a b w. (ok tt, put (components b) (w (components a)) w);
  summon = λ d. ok tt;
  op_read = λ root p w. (found_of (w (under root p)), w);
  op_write = λ root p d w. (ok tt, put (under root p) (some d) w);
}

found_data : (o : Option Bytes) (d : Bytes) → found_of o ≡ data_of d → o ≡ some d
found_data none d h = ground arith
found_data (some b) d h = ground arith

found_nothing : (o : Option Bytes) → found_of o ≡ not_found → o ≡ none
found_nothing none h = refl
found_nothing (some b) h = ground arith

pub memory-IsStorage : IsStorage memory (λ w. w)
unfolding memory
memory-IsStorage = record {
  dir_keeps = λ p w k. refl;
  write_other = λ p d w k other. put_other (components p) (some d) w k other;
  write_ok = λ p d w h. put_self (components p) (some d) w;
  rename_other = λ a b d w k there from to. put_other (components b) (w (components a)) w k to;
  rename_whole = λ a b w. inr (put_self (components b) (w (components a)) w);
  rename_ok = λ a b w h. put_self (components b) (w (components a)) w;
  read_keeps = λ root p w k. refl;
  read_data = λ root p w d h. found_data (w (under root p)) d h;
  read_nothing = λ root p w h. found_nothing (w (under root p)) h;
  object_other = λ root p d w k other. put_other (under root p) (some d) w k other;
  object_whole = λ root p d w. inr (put_self (under root p) (some d) w);
  object_ok = λ root p d w h. put_self (under root p) (some d) w;
}

encode : ℕ → ℕ → List VolumeArchive → Br Text
encode a b [] = ok (a ∷ b ∷ [])
encode a b (x ∷ l) = err (yaml [])

abbrev empty_from : ℕ → ℕ → DestMeta
empty_from a b = record { first_sync_timestamp = a; last_sync_timestamp = b; archives = [] }

parse_two : Text → Br DestMeta
parse_two (a ∷ b ∷ []) = ok (empty_from a b)
parse_two s = err (yaml [])

codec : Codec
codec = record {
  to_string = λ m. encode m.first_sync_timestamp m.last_sync_timestamp m.archives;
  from_str = parse_two;
  into_bytes = λ s. s;
  from_utf8 = λ s. ok s;
}

decoded :
    (a b : ℕ) (l : List VolumeArchive) (c : Text)
    → encode a b l ≡ ok c
    → parse_two c ≡ ok (record { first_sync_timestamp = a; last_sync_timestamp = b; archives = l })
unfolding encode parse_two
decoded a b [] c h = ap parse_two (sym (ok_injective h))
decoded a b (x ∷ l) c h = ground arith

codec-IsCodec : IsCodec codec
unfolding codec
codec-IsCodec = record {
  from_utf8_into_bytes = λ c. refl;
  from_str_to_string = λ m c h. decoded m.first_sync_timestamp m.last_sync_timestamp m.archives c h;
}

abbrev dest : DestSpec
dest = record { backend_spec = local (b'/' ∷ b'd' ∷ []) }

pub v-IsVolumeName : IsVolumeName (b'v' ∷ [])
v-IsVolumeName = ((refl, tt), (λ e. ground arith, λ e. ground arith, λ e. ground arith))

write_metadata_to_dest-IsAtomic_example :
    Ends
      (IsAtomic memory-IsStorage codec-IsCodec dest (b'v' ∷ []) (empty_from 1 2) (λ k. none))
      (λ u w'. kept_at memory-IsStorage codec-IsCodec dest w' (b'v' ∷ []) ≡ some (empty_from 1 2))
      (write_metadata_to_dest memory codec dest (b'v' ∷ []) (empty_from 1 2) (λ k. none))
unfolding sort
write_metadata_to_dest-IsAtomic_example =
    write_metadata_to_dest-IsAtomic memory-IsStorage codec-IsCodec dest (b'v' ∷ []) (empty_from 1 2)
      (λ k. none) v-IsVolumeName refl

inspect_dest_volume-kept_at_example :
    Ends
      (λ w'.
        (u : Text)
        → kept_at memory-IsStorage codec-IsCodec dest w' u
          ≡ kept_at memory-IsStorage codec-IsCodec dest (λ k. none) u)
      (λ d w'. d.meta ≡ kept_at memory-IsStorage codec-IsCodec dest (λ k. none) (b'v' ∷ []))
      (inspect_dest_volume memory codec dest (b'v' ∷ []) (λ k. none))
inspect_dest_volume-kept_at_example =
    inspect_dest_volume-kept_at memory-IsStorage codec-IsCodec dest (b'v' ∷ []) (λ k. none)
      (refl, tt)
