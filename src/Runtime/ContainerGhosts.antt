-- ===== src/Runtime/ContainerGhosts.antt =====
-- backend/internal/runtime/container_ghosts.go: the ids of corrupt containers in the output of
-- `docker ps`, and the root script that deletes them.
pub mod Safe
use calf.Common.{
  ℕ, Bool, true, false, not, ◌&&◌, ◌||◌, List, [], ◌∷◌, ◌++◌, ltb, leb, ◌==◌, any, length,
  if◌then◌else◌, Option, none, some,
}
use calf.Strings.{Text, text, text_eq, is_empty, is_space, trim_space, to_lower, contains, split}

-- The test on one character of an id.
abbrev pub is_hex : ℕ → Bool
is_hex c = (leb b'0' c && leb c b'9') || (leb b'a' c && leb c b'f') || (leb b'A' c && leb c b'F')

unfoldable pub is_hex_text : Text → Bool
is_hex_text [] = true
is_hex_text (c ∷ s) = is_hex c && is_hex_text s

unfoldable pub is_docker_container_id : Text → Bool
is_docker_container_id s = if ltb (length s) 12 || ltb 64 (length s) then false else is_hex_text s

-- `strings.Cut` at a character.
abbrev pub cut_behind : ℕ → Option (Text × Text) → Option (Text × Text)
cut_behind c none = none
cut_behind c (some (before, after)) = some (c ∷ before, after)

unfoldable pub cut : ℕ → Text → Option (Text × Text)
cut sep [] = none
cut sep (c ∷ s) = let rest = cut sep s in if c == sep then some ([], s) else cut_behind c rest

-- `strings.Fields`, with the word that is being read.
abbrev pub close_word : Text → List Text → List Text
close_word [] ws = ws
close_word (c ∷ w) ws = (c ∷ w) ∷ ws

unfoldable pub fields_from : Text → Text → List Text
fields_from word [] = close_word word []
fields_from word (c ∷ s) =
    let closed = close_word word (fields_from [] s) in
    let read_on = fields_from (word ++ (c ∷ [])) s in if is_space c then closed else read_on

unfoldable pub fields : Text → List Text
unfolding fields_from
fields s = fields_from [] s

-- The id and the name of the fields of a line; a line without fields is passed over.
abbrev pub id_name_of_fields : List Text → Option (Text × Text)
id_name_of_fields [] = none
id_name_of_fields (id ∷ []) = some (id, [])
id_name_of_fields (id ∷ name ∷ more) = some (id, name)

abbrev pub or_fields : Option (Text × Text) → Text → Option (Text × Text)
or_fields none line = id_name_of_fields (fields line)
or_fields (some id_name) line = some id_name

unfoldable pub id_name : Text → Option (Text × Text)
unfolding cut fields
id_name line = if is_empty line then none else or_fields (cut b'\t' line) line

-- The loop over the lines; `seen` holds the keys of the map.
abbrev pub collect_id : (List Text → List Text) → List Text → Option (Text × Text) → List Text
collect_id go seen none = go seen
collect_id go seen (some (id, name)) =
    let key = trim_space id in
    if not (is_docker_container_id key) || not (is_empty (trim_space name))
    then go seen
    else if any (text_eq key) seen
    then go seen
    else key ∷ go (key ∷ seen)

unfoldable pub collect_lines : List Text → List Text → List Text
unfolding id_name
collect_lines [] seen = []
collect_lines (line ∷ lines) seen =
    collect_id (collect_lines lines) seen (id_name (trim_space line))

unfoldable pub collect_empty_name_container_ids : Text → List Text
unfolding collect_lines split
collect_empty_name_container_ids ps_output = collect_lines (split b'\n' ps_output) []

-- An error is its message here; `nil` is none.
unfoldable pub is_no_such_container_error : Option Text → Bool
is_no_such_container_error none = false
is_no_such_container_error (some message) =
    let msg = to_lower message in
    contains msg (text "no such container") || contains msg (text "no such object")

-- What the script has for one id.
unfoldable pub wipe_lines : Text → Text
wipe_lines id =
    text "rm -rf /var/lib/docker/containers/"
    ++ id
    ++ text " /var/lib/docker/containers/"
    ++ id
    ++ text "*\n"
    ++ text "ctr -n moby tasks delete -f "
    ++ id
    ++ text " >/dev/null 2>&1\n"
    ++ text "ctr -n moby containers delete "
    ++ id
    ++ text " >/dev/null 2>&1\n"

-- The loop over the ids.
unfoldable pub wipe_all : List Text → Text
wipe_all [] = []
wipe_all (id ∷ ids) =
    let rest = wipe_all ids in
    if not (is_docker_container_id id) then rest else wipe_lines id ++ rest

abbrev pub script_end : Text
script_end =
    text "systemctl daemon-reload >/dev/null 2>&1\n"
    ++ text
        "systemd-run --quiet --collect --on-active=1s --timer-property=AccuracySec=1s /bin/systemctl try-restart containerd.service docker.service\n"

unfoldable pub corrupt_container_wipe_script : List Text → Text
corrupt_container_wipe_script ids = text "set +e\n" ++ wipe_all ids ++ script_end
