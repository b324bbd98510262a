-- ===== src/Agent/Ledger.antt =====
-- The idempotency ledger: services/vpn-agent/src/nebula_agent/ledger.py. Keys, kinds, ids and
-- response texts are only compared and handed on, and are numbers.
pub mod Replay
pub mod Invariant
pub mod Lookup
pub mod Torn
use vpn.Prelude.{
  ℕ, suc, ◌+◌, ◌-◌, Bool, true, false, ◌&&◌, Option, none, some, List, [], ◌∷◌, ◌++◌, length, take,
  drop, contains, leb, ◌==◌, if◌then◌else◌, is_some,
}

pub record LedgerEntry : Type 0 where
  pub idempotency_key : ℕ
  pub operation_kind : ℕ
  pub target_id : ℕ
  pub applied_generation : ℕ
  pub response_json : ℕ

-- A name in a JSON object: those of `LedgerEntry`'s fields, and any other.
pub data Field : Type 0 where
  idempotency_key operation_kind target_id applied_generation response_json : Field
  other : ℕ → Field

abbrev pub field_code : Field → ℕ
field_code Field.idempotency_key = 0
field_code Field.operation_kind = 1
field_code Field.target_id = 2
field_code Field.applied_generation = 3
field_code Field.response_json = 4
field_code (Field.other n) = n + 5

-- A line of the file, by what `json.loads` makes of it: nothing but spaces, no JSON, JSON that is
-- no object, or an object as its names with their values, each name once.
pub data Line : Type 0 where
  blank malformed scalar : Line
  object : List (Field × ℕ) → Line

abbrev pub member : Field → List (Field × ℕ) → Option ℕ
member f [] = none
member f ((g, v) ∷ payload) = if field_code g == field_code f then some v else member f payload

-- No name but those of `LedgerEntry`.
abbrev pub only_expected : List (Field × ℕ) → Bool
only_expected [] = true
only_expected ((f, v) ∷ payload) = leb (field_code f) 4 && only_expected payload

abbrev pub entry_of : Option ℕ → Option ℕ → Option ℕ → Option ℕ → Option ℕ → Option LedgerEntry
entry_of (some key) (some kind) (some target) (some generation) (some response) = some (record {
  idempotency_key = key;
  operation_kind = kind;
  target_id = target;
  applied_generation = generation;
  response_json = response;
})
entry_of _ _ _ _ _ = none

-- `_parse_entry`
unfoldable pub parse_entry : Line → Option LedgerEntry
parse_entry blank = none
parse_entry malformed = none
parse_entry scalar = none
parse_entry (object payload) =
    if only_expected payload
    then entry_of (member Field.idempotency_key payload) (member Field.operation_kind payload)
        (member Field.target_id payload) (member Field.applied_generation payload)
        (member Field.response_json payload)
    else none

-- `json.dumps(asdict(entry))`
unfoldable pub entry_line : LedgerEntry → Line
entry_line e = object (
    (Field.idempotency_key, e.idempotency_key)
    ∷ (Field.operation_kind, e.operation_kind)
    ∷ (Field.target_id, e.target_id)
    ∷ (Field.applied_generation, e.applied_generation)
    ∷ (Field.response_json, e.response_json)
    ∷ [])

-- The file: the lines that end with a newline, and the text after the last newline, `none` if it is
-- empty.
pub record LedgerFile : Type 0 where
  pub lines : List Line
  pub unended : Option Line

-- `_entries` is a dict in insertion order; every entry stands under its own key, so the list of
-- the entries is the dict. `file` is `none` before the file exists.
pub record OperationLedger : Type 0 where
  pub entries : List LedgerEntry
  pub order : List ℕ
  pub max_entries : ℕ
  pub file : Option LedgerFile

-- `self._entries.get(key)`
abbrev pub find : ℕ → List LedgerEntry → Option LedgerEntry
find k [] = none
find k (e ∷ es) = if e.idempotency_key == k then some e else find k es

-- `self._entries[entry.idempotency_key] = entry`
abbrev pub put : LedgerEntry → List LedgerEntry → List LedgerEntry
put new [] = new ∷ []
put new (e ∷ es) = if e.idempotency_key == new.idempotency_key then new ∷ es else e ∷ put new es

-- `self._entries.pop(key, None)`
abbrev pub remove : ℕ → List LedgerEntry → List LedgerEntry
remove k [] = []
remove k (e ∷ es) = if e.idempotency_key == k then es else e ∷ remove k es

-- `for key in ...: self._entries.pop(key, None)`
abbrev pub remove_all : List ℕ → List LedgerEntry → List LedgerEntry
remove_all [] es = es
remove_all (k ∷ ks) es = remove_all ks (remove k es)

-- The append to `_order` that goes with a write to `_entries`.
abbrev pub put_order : LedgerEntry → List LedgerEntry → List ℕ → List ℕ
put_order e es order =
    if is_some (find e.idempotency_key es) then order else order ++ e.idempotency_key ∷ []

-- One turn of the loop of `_load`, by what the line holds.
abbrev pub replay_entry : Option LedgerEntry → List LedgerEntry × List ℕ → List LedgerEntry × List ℕ
replay_entry none st = st
replay_entry (some e) (es, order) = (put e es, put_order e es order)

-- The loop of `_load`. A blank line is passed over, as an unreadable one is.
unfoldable pub replay : List Line → List LedgerEntry × List ℕ → List LedgerEntry × List ℕ
replay [] st = st
replay (line ∷ lines) st = replay lines (replay_entry (parse_entry line) st)

abbrev pub with_unended : List Line → Option Line → List Line
with_unended lines none = lines
with_unended lines (some line) = lines ++ line ∷ []

-- `read_text().splitlines()`
abbrev pub file_lines : Option LedgerFile → List Line
file_lines none = []
file_lines (some f) = with_unended f.lines f.unended

-- `__init__` with `_load`
unfoldable pub load : ℕ → Option LedgerFile → OperationLedger
load max_entries file =
    let (es, order) = replay (file_lines file) ([], []) in
    record { entries = es; order = order; max_entries = max_entries; file = file }

-- `lookup`
unfoldable pub lookup : ℕ → OperationLedger → Option LedgerEntry
lookup k l = find k l.entries

-- The line that an entry makes when it is written right behind a text that no newline ended. Spaces
-- before an object do not count; behind anything else, a JSON object or a part of one included, an
-- object gives no JSON: a part cannot go on with a whole object and end there, also not inside of a
-- string, which the object's first quote would end.
abbrev pub joined_line : Line → LedgerEntry → Line
joined_line blank e = entry_line e
joined_line malformed e = malformed
joined_line scalar e = malformed
joined_line (object payload) e = malformed

abbrev pub last_line : Option Line → LedgerEntry → Line
last_line none e = entry_line e
last_line (some unended) e = joined_line unended e

-- A write in mode "a", of the line and its newline.
abbrev pub lines_behind : LedgerEntry → Option LedgerFile → List Line
lines_behind e none = entry_line e ∷ []
lines_behind e (some f) = f.lines ++ last_line f.unended e ∷ []

abbrev pub written_behind : LedgerEntry → Option LedgerFile → LedgerFile
written_behind e file = record { lines = lines_behind e file; unended = none }

-- `_append_to_disk`
abbrev pub append_to_disk : LedgerEntry → OperationLedger → OperationLedger
append_to_disk e l = record l { file = some (written_behind e l.file) }

abbrev pub prepend : Option LedgerEntry → Option (List Line) → Option (List Line)
prepend none rest = none
prepend (some e) none = none
prepend (some e) (some lines) = some (entry_line e ∷ lines)

-- The lines of `_rewrite`; `none` where `self._entries[key]` raises `KeyError`.
unfoldable pub rewrite_lines : List ℕ → List LedgerEntry → Option (List Line)
rewrite_lines [] es = some []
rewrite_lines (k ∷ ks) es = prepend (find k es) (rewrite_lines ks es)

-- The replaced file.
abbrev pub rewritten : OperationLedger → Option (List Line) → Option OperationLedger
rewritten l none = none
rewritten l (some lines) =
    some (record l { file = some (record { lines = lines; unended = none }) })

-- `_rewrite`
unfoldable pub rewrite : OperationLedger → Option OperationLedger
rewrite l = rewritten l (rewrite_lines l.order l.entries)

-- `_compact_if_needed`
unfoldable pub compact_if_needed : OperationLedger → Option OperationLedger
compact_if_needed l =
    if leb (length l.order) l.max_entries
    then some l
    else let overflow = length l.order - l.max_entries in
      rewrite (record l {
        entries = remove_all (take overflow l.order) l.entries;
        order = drop overflow l.order;
      })

-- `record`
unfoldable pub record_entry : LedgerEntry → OperationLedger → Option OperationLedger
record_entry e l = compact_if_needed (
    append_to_disk e
      (record l { entries = put e l.entries; order = put_order e l.entries l.order }))
