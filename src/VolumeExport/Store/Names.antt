-- ===== src/VolumeExport/Store/Names.antt =====
-- `sanitizeName` of store.go: the component of a path that a volume or an id becomes.
use calf.Common.{
  ◌≡◌, refl, inl, inr, Bool, true, false, ◌||◌, arith, All, Bool-cases, if◌then◌else◌,
}
use calf.Strings.{Text, text, text_eq, is_empty, trim_space, contains}
use calf.Utils.Sanitize.{IsFileRune, sanitize_file_name, sanitize_file_name-IsFileRune}
use calf.VolumeExport.Store.{sanitize_name}

-- A component that names an entry of the directory: it holds no separator, it is neither "." nor
-- "..", and it holds no two dots in a row.
abbrev pub IsComponent : Text → Type 0
IsComponent name =
    All IsFileRune name × (text_eq name (text ".") ≡ false) × (contains name (text "..") ≡ false)

unknown-IsComponent : IsComponent (text "unknown")
unfolding text_eq contains
unknown-IsComponent = (ground arith, refl, refl)

sanitized :
    (a b c : Bool) (name : Text)
    → All IsFileRune name
    → text_eq name (text ".") ≡ a
    → contains name (text "..") ≡ c
    → IsComponent (if a || b || c then text "unknown" else name)
sanitized true b c name f p q = unknown-IsComponent
sanitized false true c name f p q = unknown-IsComponent
sanitized false false true name f p q = unknown-IsComponent
sanitized false false false name f p q = (f, p, q)

-- Whatever a volume or an id is called, its files stay in the store's directory.
pub sanitize_name-IsComponent : (value : Text) → IsComponent (sanitize_name value)
unfolding sanitize_name
sanitize_name-IsComponent value = elim (Bool-cases (is_empty (trim_space value))) [
  | inl e ↦ rw e unknown-IsComponent
  | inr e ↦ rw e (
      sanitized _ (text_eq (sanitize_file_name (trim_space value)) (text "..")) _ _
        (sanitize_file_name-IsFileRune (trim_space value)) refl refl)
]
