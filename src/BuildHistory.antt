-- ===== src/BuildHistory.antt =====
-- backend/internal/buildhistory/history.go: the rows of `docker buildx history ls`, and which of them
-- are imported. A row that is no JSON is none of `decode`.
pub mod Merge
use calf.Common.{
  ℕ, Bool, true, false, not, ◌&&◌, ◌||◌, Option, none, some, List, [], ◌∷◌, ◌++◌, keep, any,
  if◌then◌else◌, ℤ, pos, negsuc, lt_int,
}
use calf.Strings.{Text, text, text_eq, is_empty, trim_space, to_lower, split}

pub record Row : Type 0 where
  pub id : Text
  pub ref : Text
  pub name : Text
  pub name_lower : Text
  pub status : Text
  pub status_lower : Text
  pub created_at : Text
  pub created_at_lower : Text
  pub completed_at : Text
  pub duration : Text
  pub cached_steps : ℤ
  pub total_steps : ℤ

-- The last of the parts; `split` returns one at least.
abbrev pub last_part : List Text → Text
last_part [] = []
last_part (p ∷ []) = p
last_part (p ∷ q ∷ ps) = last_part (q ∷ ps)

unfoldable pub history_id : Row → Text
history_id r =
    if not (is_empty r.id)
    then r.id
    else if is_empty r.ref
    then []
    else last_part (split b'/' r.ref)

unfoldable pub build_name : Row → Text
build_name r = if not (is_empty r.name) then r.name else r.name_lower

unfoldable pub build_status : Row → Text
build_status r = if not (is_empty r.status) then r.status else r.status_lower

unfoldable pub build_created_at : Row → Text
build_created_at r = if not (is_empty r.created_at) then r.created_at else r.created_at_lower

-- What the code takes from Go's time: the milliseconds of `time.ParseDuration`, and the milliseconds
-- from one RFC 3339 instant to another, none where one of them is no instant.
pub record Clock : Type 0 where
  pub parse_duration : Text → Option ℤ
  pub between : Text → Text → Option ℤ

abbrev pub or_zero : Option ℤ → ℤ
or_zero none = pos 0
or_zero (some n) = n

abbrev pub is_blank : ℕ → Bool
is_blank c = text_eq (c ∷ []) (text " ")

unfoldable pub parse_duration_ms : Clock → Text → ℤ
parse_duration_ms k value =
    let v = trim_space value in
    if is_empty v then pos 0 else or_zero (k.parse_duration (keep (λ c. not (is_blank c)) v))

unfoldable pub build_duration_ms : Clock → Row → ℤ
unfolding parse_duration_ms build_created_at
build_duration_ms k r =
    let duration = parse_duration_ms k r.duration in
    if lt_int (pos 0) duration
    then duration
    else or_zero (k.between (build_created_at r) r.completed_at)

-- One line of the plain-text output.
abbrev pub plaintext_row : Text → Option Row → List Row → List Row
plaintext_row line none rows =
    record {
      id = [];
      ref = [];
      name = line;
      name_lower = line;
      status = text "migrated";
      status_lower = text "migrated";
      created_at = [];
      created_at_lower = [];
      completed_at = [];
      duration = [];
      cached_steps = pos 0;
      total_steps = pos 0;
    }
    ∷ rows
plaintext_row line (some row) rows = if is_empty (build_name row) then rows else row ∷ rows

-- The loop over the lines.
unfoldable pub parse_plaintext_lines : (Text → Option Row) → List Text → List Row
parse_plaintext_lines decode [] = []
parse_plaintext_lines decode (raw ∷ lines) =
    let rows = parse_plaintext_lines decode lines in
    let line = trim_space raw in
    if is_empty line then rows else plaintext_row line (decode line) rows

abbrev pub json_row : Option Row → List Row → List Row
json_row none rows = rows
json_row (some row) rows =
    if is_empty (history_id row) && is_empty (build_name row) then rows else row ∷ rows

unfoldable pub parse_lines : (Text → Option Row) → List Text → List Row
parse_lines decode [] = []
parse_lines decode (raw ∷ lines) =
    let rows = parse_lines decode lines in
    let line = trim_space raw in if is_empty line then rows else json_row (decode line) rows

-- The map `existingRefs` is the list of its keys; it is handed back with the rows, as the code adds
-- the imported ids to the caller's map.
unfoldable pub merge_rows : List Text → List Row → List Row × List Text
merge_rows existing_refs [] = ([], existing_refs)
merge_rows existing_refs (row ∷ rows) =
    let id = history_id row in
    let go = merge_rows existing_refs rows in
    let import = merge_rows (id ∷ existing_refs) rows in
    if is_empty id
    then go
    else if any (text_eq id) existing_refs
    then go
    else (row ∷ import.0, import.1)

-- The map that the rows are indexed in: a later row takes the place of an earlier one.
unfoldable pub index_rows : List (Text × Row) → List Row → List (Text × Row)
index_rows indexed [] = indexed
index_rows indexed (row ∷ rows) =
    let id = history_id row in
    let go = index_rows indexed rows in
    let added = index_rows ((id, row) ∷ indexed) rows in if is_empty id then go else added

unfoldable pub row_by_history_id : List Row → List (Text × Row)
unfolding index_rows
row_by_history_id rows = index_rows [] rows

abbrev pub one_of : List Text → Text → Bool
one_of values s = any (text_eq s) values

unfoldable pub normalize_status : Text → Text
normalize_status status =
    let s = to_lower (trim_space status) in
    if one_of (text "completed" ∷ text "complete" ∷ text "success" ∷ []) s
    then text "success"
    else if one_of (text "error" ∷ text "failed" ∷ text "canceled" ∷ text "cancelled" ∷ []) s
    then text "failed"
    else if one_of (text "running" ∷ text "in progress" ∷ text "in_progress" ∷ []) s
    then text "running"
    else if is_empty status
    then text "success"
    else to_lower status

unfoldable pub normalize_tag : Text → Text
normalize_tag name =
    let tag = trim_space name in if is_empty tag then text "untagged-build" else tag
