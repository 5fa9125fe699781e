-- ===== src/Runtime/ContainerGhosts/Safe.antt =====
-- The ids and the root script of container_ghosts.go: what they can hold.
use calf.Common.{
  ℕ, ◌≤◌, ◌≡◌, refl, ◌⊎◌, inl, inr, Bool, true, false, not, ◌||◌, Option, none, some, List, [], ◌∷◌,
  ◌++◌, arith, length, any, All, Bool-cases, &&-true, if◌then◌else◌, keep,
}
use calf.Strings.{Text, text, text_eq, is_empty, trim_space, split}
use calf.Runtime.ContainerGhosts.{
  is_hex, is_hex_text, is_docker_container_id, id_name, collect_id, collect_lines,
  collect_empty_name_container_ids, wipe_lines, wipe_all, corrupt_container_wipe_script, script_end,
}

-- A hexadecimal digit: no separator, quote, glob or other character that a shell reads.
abbrev pub IsHex : ℕ → Type 0
IsHex c = (b'0' ≤ c × c ≤ b'9') ⊎ (b'a' ≤ c × c ≤ b'f') ⊎ (b'A' ≤ c × c ≤ b'F')

-- An id of a container: 12 to 64 hexadecimal digits.
abbrev pub IsContainerId : Text → Type 0
IsContainerId s = (12 ≤ length s) × (length s ≤ 64) × All IsHex s

is_hex_text-IsHex : (s : Text) → is_hex_text s ≡ true → All IsHex s
unfolding is_hex_text
is_hex_text-IsHex [] h = tt
is_hex_text-IsHex (c ∷ s) h =
    let (p, q) = &&-true (is_hex c) (is_hex_text s) h in (ground arith, is_hex_text-IsHex s q)

pub is_docker_container_id-IsContainerId :
    (s : Text) → is_docker_container_id s ≡ true → IsContainerId s
unfolding is_docker_container_id
is_docker_container_id-IsContainerId s h =
    let hex : is_hex_text s ≡ true = ground arith in
    (ground arith, ground arith, is_hex_text-IsHex s hex)

-- The ids that the loop returns are ids, all different, and none is in `seen`.
abbrev pub Fresh : List Text → List Text → Type 0
Fresh seen [] = Unit
Fresh seen (id ∷ ids) = IsContainerId id × (any (text_eq id) seen ≡ false) × Fresh (id ∷ seen) ids

not_or : (a b : Bool) → (not a || b) ≡ false → a ≡ true
not_or a b h = ground arith

add-Fresh :
    (go : List Text → List Text) (seen : List Text) (key : Text)
    → ((s : List Text) → Fresh s (go s))
    → is_docker_container_id key ≡ true
    → Fresh seen (if any (text_eq key) seen then go seen else key ∷ go (key ∷ seen))
add-Fresh go seen key h accepted = elim (Bool-cases (any (text_eq key) seen)) [
  | inl e ↦ rw e (h seen)
  | inr e ↦ rw e (is_docker_container_id-IsContainerId key accepted, e, h (key ∷ seen))
]

collect_id-Fresh :
    (go : List Text → List Text) (seen : List Text) (found : Option (Text × Text))
    → ((s : List Text) → Fresh s (go s))
    → Fresh seen (collect_id go seen found)
collect_id-Fresh go seen none h = h seen
collect_id-Fresh go seen (some (id, name)) h =
    let key = trim_space id in
    let refused = not (is_docker_container_id key) || not (is_empty (trim_space name)) in
    elim (Bool-cases refused) [
      | inl e ↦ rw e (h seen)
      | inr e ↦ rw e (add-Fresh go seen key h (not_or (is_docker_container_id key) _ e))
    ]

pub collect_lines-Fresh :
    (lines : List Text) (seen : List Text) → Fresh seen (collect_lines lines seen)
unfolding collect_lines
collect_lines-Fresh [] seen = tt
collect_lines-Fresh (line ∷ lines) seen =
    collect_id-Fresh (collect_lines lines) seen (id_name (trim_space line))
      (collect_lines-Fresh lines)

-- Every id that is read from the output of `docker ps`, whatever that output is, has 12 to 64
-- hexadecimal digits, and no id comes twice.
pub collect_empty_name_container_ids-Fresh :
    (ps_output : Text) → Fresh [] (collect_empty_name_container_ids ps_output)
unfolding collect_empty_name_container_ids
collect_empty_name_container_ids-Fresh ps_output = collect_lines-Fresh (split b'\n' ps_output) []

Fresh-IsContainerId : (seen ids : List Text) → Fresh seen ids → All IsContainerId ids
Fresh-IsContainerId seen [] h = tt
Fresh-IsContainerId seen (id ∷ ids) (p, new, h) = (p, Fresh-IsContainerId (id ∷ seen) ids h)

-- The texts of the given ids, one behind the other.
abbrev pub wipe_texts : List Text → Text
wipe_texts [] = []
wipe_texts (id ∷ ids) = wipe_lines id ++ wipe_texts ids

wipe_all-keep : (ids : List Text) → wipe_all ids ≡ wipe_texts (keep is_docker_container_id ids)
unfolding wipe_all
wipe_all-keep [] = refl
wipe_all-keep (id ∷ ids) = elim (Bool-cases (is_docker_container_id id)) [
  | inl e ↦ rw (e, wipe_all-keep ids) refl
  | inr e ↦ rw (e, wipe_all-keep ids) refl
]

kept-IsContainerId : (ids : List Text) → All IsContainerId (keep is_docker_container_id ids)
kept-IsContainerId [] = tt
kept-IsContainerId (id ∷ ids) = elim (Bool-cases (is_docker_container_id id)) [
  | inl e ↦ rw e (is_docker_container_id-IsContainerId id e, kept-IsContainerId ids)
  | inr e ↦ rw e (kept-IsContainerId ids)
]

-- Whatever the ids are, the root script is its fixed head, the texts of those that are container ids,
-- in order, and its fixed end; and each of these has 12 to 64 hexadecimal digits, so that no other
-- character of the input reaches the shell.
pub corrupt_container_wipe_script-IsContainerId :
    (ids : List Text)
    → (corrupt_container_wipe_script ids
        ≡ text "set +e\n" ++ wipe_texts (keep is_docker_container_id ids) ++ script_end)
      × All IsContainerId (keep is_docker_container_id ids)
unfolding corrupt_container_wipe_script
corrupt_container_wipe_script-IsContainerId ids = (rw (wipe_all-keep ids), kept-IsContainerId ids)
