-- ===== src/Tests/Coding.antt =====
-- A codec for all metadata: numbers one after the other.
use bbkar.Common.{ℕ, zero, suc, ◌≡◌, refl, ap, sym, ◌∙◌, Option, none, some, List, [], ◌∷◌}
use bbkar.Common.Br.{Br, ok, ok_injective}
use bbkar.Common.Text.{Text}
use bbkar.Dest.{ChunkFilename, VolumeArchive, DestMeta}
use bbkar.Storage.{Codec}
use bbkar.Storage.Laws.{IsCodec}
use bbkar.Timestamp.{Timestamp}

-- A way to put a value before other numbers, and to get it from there
pub record Coding (A : Type 0) : Type 0 where
  pub put : A → List ℕ → List ℕ
  pub get : List ℕ → Option (A × List ℕ)
  pub get-put : (a : A) (s : List ℕ) → get (put a s) ≡ some (a, s)

abbrev then : {A B : Type 0} → Option A → (A → Option B) → Option B
then none f = none
then (some a) f = f a

abbrev get_number : List ℕ → Option (ℕ × List ℕ)
get_number [] = none
get_number (n ∷ s) = some (n, s)

number : Coding ℕ
number = record { put = λ n s. n ∷ s; get = get_number; get-put = λ n s. refl }

pair : {A B : Type 0} → Coding A → Coding B → Coding (A × B)
pair c d = record {
  put = λ p s. c.put p.0 (d.put p.1 s);
  get = λ s. then (c.get s) (λ q. then (d.get q.1) (λ r. some ((q.0, r.0), r.1)));
  get-put = λ p s. rw (c.get-put p.0 (d.put p.1 s), d.get-put p.1 s) refl;
}

along : {A B : Type 0} (c : Coding B) (f : A → B) (g : B → A) → ((a : A) → g (f a) ≡ a) → Coding A
along c f g same = record {
  put = λ a s. c.put (f a) s;
  get = λ s. then (c.get s) (λ q. some (g q.0, q.1));
  get-put = λ a s. rw (c.get-put (f a) s, same a) refl;
}

module _ {A : Type 0} (c : Coding A) where
  abbrev get_items : ℕ → List ℕ → Option (List A × List ℕ)
  get_items zero s = some ([], s)
  get_items (suc n) s = then (c.get s) (λ q. then (get_items n q.1) (λ r. some (q.0 ∷ r.0, r.1)))

  abbrev put_items : List A → List ℕ → List ℕ
  put_items [] s = s
  put_items (x ∷ xs) s = c.put x (put_items xs s)

  abbrev count : List A → ℕ
  count [] = zero
  count (x ∷ xs) = suc (count xs)

  get_items-put_items :
      (xs : List A) (s : List ℕ) → get_items (count xs) (put_items xs s) ≡ some (xs, s)
  get_items-put_items [] s = refl
  get_items-put_items (x ∷ xs) s = rw (c.get-put x (put_items xs s), get_items-put_items xs s) refl

  items : Coding (List A)
  items = record {
    put = λ xs s. count xs ∷ put_items xs s;
    get = λ s. then (get_number s) (λ q. get_items q.0 q.1);
    get-put = get_items-put_items;
  }

  abbrev put_option : Option A → List ℕ → List ℕ
  put_option none s = 0 ∷ s
  put_option (some a) s = 1 ∷ c.put a s

  abbrev get_option : List ℕ → Option (Option A × List ℕ)
  get_option [] = none
  get_option (zero ∷ s) = some (none, s)
  get_option (suc n ∷ s) = then (c.get s) (λ q. some (some q.0, q.1))

  get_option-put_option : (o : Option A) (s : List ℕ) → get_option (put_option o s) ≡ some (o, s)
  get_option-put_option none s = refl
  get_option-put_option (some a) s = rw (c.get-put a s) refl

  optional : Coding (Option A)
  optional = record { put = put_option; get = get_option; get-put = get_option-put_option }

string : Coding Text
string = items number

timestamp : Coding Timestamp
timestamp =
    along (pair string (pair string (optional string))) (λ t. (t.raw, (t.timestamp, t.seq)))
      (λ p. record { raw = p.0; timestamp = p.1.0; seq = p.1.1 }) (λ t. refl)

chunk : Coding ChunkFilename
chunk =
    along
      (pair string
        (pair number (pair (optional string) (pair (optional number) (optional string)))))
      (λ c. (c.filename, (c.size, (c.compression, (c.raw_size, c.sha256sum)))))
      (λ p. record {
        filename = p.0;
        size = p.1.0;
        compression = p.1.1.0;
        raw_size = p.1.1.1.0;
        sha256sum = p.1.1.1.1;
      })
      (λ c. refl)

archive : Coding VolumeArchive
archive =
    along (pair timestamp (pair (optional string) (items chunk)))
      (λ a. (a.timestamp, (a.parent_timestamp, a.chunks)))
      (λ p. record { timestamp = p.0; parent_timestamp = p.1.0; chunks = p.1.1 }) (λ a. refl)

pub meta : Coding DestMeta
meta =
    along (pair number (pair number (items archive)))
      (λ m. (m.first_sync_timestamp, (m.last_sync_timestamp, m.archives)))
      (λ p. record { first_sync_timestamp = p.0; last_sync_timestamp = p.1.0; archives = p.1.1 })
      (λ m. refl)

-- Bytes that are no metadata stand for metadata without archives.
abbrev pub meta_or_empty : Option (DestMeta × List ℕ) → Br DestMeta
meta_or_empty none =
    ok (record { first_sync_timestamp = 0; last_sync_timestamp = 0; archives = [] })
meta_or_empty (some (m, s)) = ok m

abbrev pub total_codec : Codec
total_codec = record {
  to_string = λ m. ok (meta.put m []);
  from_str = λ s. meta_or_empty (meta.get s);
  into_bytes = λ s. s;
  from_utf8 = λ s. ok s;
}

pub total_codec-IsCodec : IsCodec total_codec
total_codec-IsCodec = record {
  from_utf8_into_bytes = λ c. refl;
  from_str_to_string = λ m c h.
      ap (λ s. meta_or_empty (meta.get s)) (sym (ok_injective h))
      ∙ ap meta_or_empty (meta.get-put m []);
}
