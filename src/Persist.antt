-- ===== src/Persist.antt =====
-- src/persist.rs: the last good state on disk.
-- The serializer is the library's: `to_json` and `from_json` are arguments. The file system holds
-- whole files by their path; whether a call on it succeeds, and what a failed write leaves, are
-- arguments as well.
pub mod Atomic
use Prim.Native.String
use ntp_time_json_api.Common.{
  ℕ, Bool, true, false, not, Option, none, some, List, [], ◌∷◌, String, if◌then◌else◌, Result, ok,
  err, ◌>>=◌, keep,
}
use ntp_time_json_api.Common.Int.{ℤ}
use ntp_time_json_api.Common.Maps.{Entries, same_text, lookup, insert}

abbrev pub persist_version : ℕ
persist_version = 1

pub record PersistedState (F : Type 0) : Type 0 where
  pub version : ℕ  -- u32
  pub saved_epoch_ms : ℤ  -- i64
  pub saved_at_unix_ms : ℤ  -- i64
  pub uncertainty_ms : Option F
  pub source : String
  pub selected_server : Option String
  pub selected_provider : Option String
  pub last_successful_ntp_sync_unix_ms : Option ℤ

pub data PersistError (JsonError : Type 0) : Type 0 where
  json_error : JsonError → PersistError JsonError
  write_failed rename_failed read_failed : PersistError JsonError

abbrev pub Disk : Type 0
Disk = Entries String

-- How the calls of one save go: a write that fails may leave a part of the text.
pub record Attempt : Type 0 where
  pub write_fails_with : Option String
  pub renames : Bool

abbrev pub remove : String → Disk → Disk
remove path [] = []
remove path ((key, text) ∷ d) =
    if same_text key path then remove path d else (key, text) ∷ remove path d

-- `fs::rename`: the target is replaced in one step.
unfoldable pub rename_file : String → String → Disk → Disk
rename_file from to d = elim (lookup from d) [
  | none ↦ d
  | some text ↦ insert to text (remove from d)
]

abbrev pub tmp_of : String → String
tmp_of path = String.◌++◌ path ".tmp"

abbrev pub write_and_rename :
    {JsonError : Type 0}
    → String
    → Attempt
    → String
    → Disk
    → Disk × Result (Unit {0}) (PersistError JsonError)
write_and_rename path attempt json d = elim attempt.write_fails_with [
  | some part ↦ (insert (tmp_of path) part d, err write_failed)
  | none ↦
      let d = insert (tmp_of path) json d in
      if attempt.renames then (rename_file (tmp_of path) path d, ok tt) else (d, err rename_failed)
]

module _ {F : Type 0} {JsonError : Type 0} where
  unfoldable pub save_state :
      (to_json : PersistedState F → Result String JsonError)
      → String
      → PersistedState F
      → Attempt
      → Disk
      → Disk × Result (Unit {0}) (PersistError JsonError)
  save_state to_json path state attempt d = elim (to_json state) [
    | err e ↦ (d, err (json_error e))
    | ok json ↦ write_and_rename path attempt json d
  ]

  abbrev pub parse_state :
      (String → Result (PersistedState F) JsonError)
      → String
      → Result (Option (PersistedState F)) (PersistError JsonError)
  parse_state from_json content = elim (from_json content) [
    | err e ↦ err (json_error e)
    | ok state ↦ ok (some state)
  ]

  -- `readable` says whether a file that exists can be read.
  unfoldable pub load_state :
      (from_json : String → Result (PersistedState F) JsonError)
      → Bool
      → String
      → Disk
      → Result (Option (PersistedState F)) (PersistError JsonError)
  load_state from_json readable path d = elim (lookup path d) [
    | none ↦ ok none
    | some content ↦ if readable then parse_state from_json content else err read_failed
  ]
