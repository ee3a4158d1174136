-- ===== src/Storage/Components.antt =====
-- The components of paths, and the names of files: src/service/executor/write_dest.rs and
-- opendal.rs.
use mathlib.Core.List.{append_assoc, append-nil, reverse-reverse}
use bbkar.Common.{◌==◌, ◌≡◌, ◌≢◌, refl, sym, ap, ◌∙◌, arith, true, false}
use bbkar.Common.{List, [], ◌∷◌, ◌++◌, get_last?, if◌then◌else◌, All, Bool-cases, inl, inr, reverse}
use bbkar.Common.Search.{All-reverse}
use bbkar.Common.Text.{Text, text}
use bbkar.Config.{starts_with_slash, trim_start_slashes}
use bbkar.Storage.{join, trim_slashes, ends_with_slash, meta_filename, tmp_filename}

-- The components of a path: the names between its slashes, without the empty ones.
abbrev pub push_name : Text → List Text → List Text
push_name [] l = l
push_name (c ∷ name) l = (c ∷ name) ∷ l

unfoldable pub components_from : Text → Text → List Text
components_from name [] = push_name name []
components_from name (c ∷ s) =
    let next = components_from [] s in
    let more = components_from (name ++ c ∷ []) s in if c == b'/' then push_name name next else more

abbrev pub components : Text → List Text
components s = components_from [] s

-- A name has no slash.
abbrev pub IsName : Text → Type 0
IsName = All (λ c. (c == b'/') ≡ false)

-- A name that is neither empty nor one of the two that a file system reads as directories
abbrev pub IsPlain : Text → Type 0
IsPlain name = (name ≢ []) × (name ≢ b'.' ∷ []) × (name ≢ b'.' ∷ b'.' ∷ [])

-- A name that a volume can have on every backend. A source can give others: the snapshots `.x` and
-- `..x` belong to the volumes of the names `` and `.`.
abbrev pub IsVolumeName : Text → Type 0
IsVolumeName v = IsName v × IsPlain v

-- Two paths that lead to different files where there are no links: they leave the same directory by
-- different plain names, or they end in different plain names.
pub data IsApart (p k : List Text) : Type 0 where
  same_base :
      (base s t : List Text)
      → p ≡ base ++ s
      → k ≡ base ++ t
      → All IsPlain s
      → All IsPlain t
      → s ≢ t
      → IsApart p k
  other_name :
      (x y : List Text) (a b : Text)
      → p ≡ x ++ a ∷ []
      → k ≡ y ++ b ∷ []
      → IsPlain a
      → IsPlain b
      → a ≢ b
      → IsApart p k

push_name-append : (name : Text) (l m : List Text) → push_name name l ++ m ≡ push_name name (l ++ m)
push_name-append [] l m = refl
push_name-append (c ∷ name) l m = refl

pub components_from-slash :
    (a b : Text) (name : Text)
    → components_from name (a ++ b'/' ∷ b) ≡ components_from name a ++ components b
unfolding components_from
components_from-slash [] b name = sym (push_name-append name [] (components b))
components_from-slash (c ∷ a) b name = elim (Bool-cases (c == b'/')) [
  | inl slash ↦ rw slash (
      ap (push_name name) (components_from-slash a b [])
      ∙ sym (push_name-append name (components a) (components b)))
  | inr other ↦ rw other (components_from-slash a b (name ++ c ∷ []))
]

pub components_from-name :
    (v : Text) (name : Text) → IsName v → components_from name v ≡ push_name (name ++ v) []
unfolding components_from
components_from-name [] name h = ap (λ n. push_name n []) (sym (append-nil name))
components_from-name (c ∷ v) name (here, there) = rw here (
    components_from-name v (name ++ c ∷ []) there
    ∙ ap (λ n. push_name n []) (append_assoc name (c ∷ []) v))

-- A base that ends with a slash
components_from-ends :
    (a v name : Text)
    → ends_with_slash (get_last? a) ≡ true
    → components_from name (a ++ v) ≡ components_from name a ++ components v
unfolding components_from
components_from-ends [] v name h = ground arith
components_from-ends (c ∷ []) v name h = rw h (sym (push_name-append name [] (components v)))
components_from-ends (c ∷ d ∷ a) v name h = elim (Bool-cases (c == b'/')) [
  | inl slash ↦ rw slash (
      ap (push_name name) (components_from-ends (d ∷ a) v [] h)
      ∙ sym (push_name-append name (components (d ∷ a)) (components v)))
  | inr other ↦ rw other (components_from-ends (d ∷ a) v (name ++ c ∷ []) h)
]

IsName-start : (v : Text) → IsName v → starts_with_slash v ≡ false
IsName-start [] h = refl
IsName-start (c ∷ v) h = h.0

pub components-join :
    (base v : Text) → IsName v → components (join base v) ≡ components base ++ components v
unfolding join components_from
components-join [] v h = refl
components-join (c ∷ base) v h = elim (Bool-cases (ends_with_slash (get_last? (c ∷ base)))) [
  | inl ends ↦ rw (IsName-start v h, ends) (components_from-ends (c ∷ base) v [] ends)
  | inr open_end ↦ rw (IsName-start v h, open_end) (components_from-slash (c ∷ base) v [])
]

trim_start_slashes-name : (v : Text) → IsName v → trim_start_slashes v ≡ v
unfolding trim_start_slashes
trim_start_slashes-name [] h = refl
trim_start_slashes-name (c ∷ v) h = rw h.0 refl

pub trim_slashes-name : (v : Text) → IsName v → trim_slashes v ≡ v
unfolding trim_slashes
trim_slashes-name v h =
    ap (λ s. reverse (trim_start_slashes (reverse s))) (trim_start_slashes-name v h)
    ∙ ap reverse (trim_start_slashes-name (reverse v) (All-reverse (λ c. (c == b'/') ≡ false) v h))
    ∙ reverse-reverse v

pub meta-IsName : IsName meta_filename
unfolding meta_filename text
meta-IsName = (
  refl,
  (
    refl,
    (
      refl,
      (
        refl,
        (refl, (refl, (refl, (refl, (refl, (refl, (refl, (refl, (refl, (refl, (refl, tt))))))))))),
      ),
    ),
  ),
)

pub tmp-IsName : IsName tmp_filename
unfolding tmp_filename text
tmp-IsName = (
  refl,
  (
    refl,
    (
      refl,
      (
        refl,
        (
          refl,
          (
            refl,
            (
              refl,
              (
                refl,
                (
                  refl,
                  (
                    refl,
                    (
                      refl,
                      (refl, (refl, (refl, (refl, (refl, (refl, (refl, (refl, (refl, tt))))))))),
                    ),
                  ),
                ),
              ),
            ),
          ),
        ),
      ),
    ),
  ),
)
