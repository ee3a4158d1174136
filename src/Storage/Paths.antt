-- ===== src/Storage/Paths.antt =====
-- The paths of the metadata, by their components: a local write and the operator agree on them.
use mathlib.Core.List.{append_assoc}
use bbkar.Common.{◌≡◌, ◌≢◌, refl, sym, ap, ◌∙◌, arith}
use bbkar.Common.{List, [], ◌∷◌, ◌++◌}
use bbkar.Common.Text.{Text, text}
use bbkar.Storage.{join, path_in_volume, trim_slashes, meta_filename, tmp_filename}
use bbkar.Storage.Components.{
  push_name, components, IsName, IsPlain, IsVolumeName, IsApart, same_base, other_name,
  components_from-slash, components_from-name, components-join, trim_slashes-name, meta-IsName,
  tmp-IsName,
}

-- Where the metadata of a volume is, below a root
unfoldable pub meta_key : Text → Text → List Text
meta_key root v = components root ++ (components v ++ components meta_filename)

-- Where it is written first
unfoldable pub tmp_key : Text → Text → List Text
tmp_key root v = components root ++ (components v ++ components tmp_filename)

pub components-path_in_volume :
    (root v : Text)
    → IsName v
    → components (root ++ b'/' ∷ path_in_volume v meta_filename) ≡ meta_key root v
unfolding path_in_volume meta_key
components-path_in_volume root v h =
    components_from-slash root (trim_slashes v ++ b'/' ∷ trim_slashes meta_filename) []
    ∙ ap (λ l. components root ++ l)
        (components_from-slash (trim_slashes v) (trim_slashes meta_filename) []
          ∙ ap (λ s. components s ++ components (trim_slashes meta_filename))
              (trim_slashes-name v h)
          ∙ ap (λ s. components v ++ components s) (trim_slashes-name meta_filename meta-IsName))

pub components-join-join :
    (root v name : Text)
    → IsName v
    → IsName name
    → components (join (join root v) name) ≡ components root ++ (components v ++ components name)
components-join-join root v name h k =
    components-join (join root v) name k
    ∙ ap (λ l. l ++ components name) (components-join root v h)
    ∙ append_assoc (components root) (components v) (components name)

pub components-IsName : (v : Text) → IsName v → components v ≡ push_name v []
components-IsName v h = components_from-name v [] h

append_cancel : {A : Type 0} (l a b : List A) → l ++ a ≡ l ++ b → a ≡ b
append_cancel [] a b h = h
append_cancel (x ∷ l) a b h = append_cancel l a b (ground arith)

meta_components : components meta_filename ≡ meta_filename ∷ []
unfolding meta_filename text
meta_components = components-IsName meta_filename meta-IsName

tmp_components : components tmp_filename ≡ tmp_filename ∷ []
unfolding tmp_filename text
tmp_components = components-IsName tmp_filename tmp-IsName

meta-IsPlain : IsPlain meta_filename
unfolding meta_filename text
meta-IsPlain = (λ e. ground arith, λ e. ground arith, λ e. ground arith)

tmp-IsPlain : IsPlain tmp_filename
unfolding tmp_filename text
tmp-IsPlain = (λ e. ground arith, λ e. ground arith, λ e. ground arith)

different_files : tmp_filename ≢ meta_filename
unfolding tmp_filename meta_filename text
different_files e = ground arith

pub push_name-IsPlain : (v : Text) → v ≢ [] → push_name v [] ≡ v ∷ []
push_name-IsPlain [] h = absurd (h refl)
push_name-IsPlain (c ∷ v) h = refl

meta_key-plain :
    (root v : Text) → IsVolumeName v → meta_key root v ≡ components root ++ (v ∷ meta_filename ∷ [])
unfolding meta_key
meta_key-plain root v (name, plain) =
    ap (λ l. components root ++ l)
      (ap (λ l. l ++ components meta_filename)
          (components-IsName v name ∙ push_name-IsPlain v plain.0)
        ∙ ap (λ l. v ∷ l) meta_components)

-- Different volumes keep their metadata in different files.
pub meta_key-IsApart :
    (root u v : Text)
    → IsVolumeName u
    → IsVolumeName v
    → u ≢ v
    → IsApart (meta_key root v) (meta_key root u)
meta_key-IsApart root u v hu hv other =
    same_base (components root) (v ∷ meta_filename ∷ []) (u ∷ meta_filename ∷ [])
      (meta_key-plain root v hv) (meta_key-plain root u hu) (hv.1, (meta-IsPlain, tt))
      (hu.1, (meta-IsPlain, tt)) (λ e. other (ground arith))

-- A file of another name is not the metadata of any volume.
pub other-IsApart :
    (root u name : Text) (p x : List Text)
    → p ≡ x ++ name ∷ []
    → IsPlain name
    → name ≢ meta_filename
    → IsApart p (meta_key root u)
unfolding meta_key
other-IsApart root u name p x e plain other =
    other_name x (components root ++ components u) name meta_filename e
      (ap (λ l. components root ++ (components u ++ l)) meta_components
        ∙ sym (append_assoc (components root) (components u) (meta_filename ∷ [])))
      plain meta-IsPlain other

pub tmp_key-IsApart : (root u v : Text) → IsApart (tmp_key root v) (meta_key root u)
unfolding tmp_key
tmp_key-IsApart root u v =
    other-IsApart root u tmp_filename _ (components root ++ components v)
      (ap (λ l. components root ++ (components v ++ l)) tmp_components
        ∙ sym (append_assoc (components root) (components v) (tmp_filename ∷ [])))
      tmp-IsPlain different_files
