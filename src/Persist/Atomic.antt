-- ===== src/Persist/Atomic.antt =====
-- src/persist.rs: a save is complete or leaves the old state.
use Prim.Native.String.{count}
use text.Mathlib.TextLemmas.{length-append}
use text.Mathlib.TextEquality.{eq_iff}
use text.Mathlib.TextPositions.{eq_refl}
use ntp_time_json_api.Common.{
  ◌≡◌, refl, ap, Bool, true, false, none, some, [], ◌∷◌, String, if◌then◌else◌, Result, ok, err,
  arith, Bool-cases, Option-cases, Result-cases, inl, inr,
}
use ntp_time_json_api.Common.Maps.{same_text, lookup, insert, lookup-insert}
use ntp_time_json_api.Persist.{
  PersistedState, PersistError, Disk, Attempt, remove, rename_file, tmp_of, write_and_rename,
  save_state, load_state,
}

-- The temporary file is another one.
tmp_of-ne : (path : String) → same_text (tmp_of path) path ≡ false
tmp_of-ne path = elim (Bool-cases (same_text (tmp_of path) path)) [
  | inr other ↦ other
  | inl same ↦
      let longer = ap count ((eq_iff (tmp_of path) path).0 same) in
      absurd (omega (arith, longer, length-append path ".tmp"))
]

lookup-remove :
    (path other : String) (d : Disk)
    → lookup other (remove path d) ≡ (if same_text path other then none else lookup other d)
unfolding lookup
lookup-remove path other [] = ground (arith, eq_iff path other)
lookup-remove path other ((key, text) ∷ d) =
    ground (arith, lookup-remove path other d, eq_iff path other, eq_iff key path, eq_iff key other)

lookup-insert_self : (path text : String) (d : Disk) → lookup path (insert path text d) ≡ some text
lookup-insert_self path text d = simp (lookup-insert, eq_refl)

-- Renaming the temporary file makes its text that of the state file, and no other file changes.
lookup-rename_file :
    (path other text : String) (d : Disk)
    → lookup other (rename_file (tmp_of path) path (insert (tmp_of path) text d)) ≡ (
        if same_text path other
        then some text
        else if same_text (tmp_of path) other
        then none
        else lookup other d)
unfolding rename_file
lookup-rename_file path other text d =
    rw (lookup-insert_self (tmp_of path) text d, rename_file)
      (simp (lookup-insert, lookup-remove)
        (ground (arith, eq_iff path other, eq_iff (tmp_of path) other)))

abbrev pub saved : {JsonError : Type 0} → Result (Unit {0}) (PersistError JsonError) → Bool
saved (ok done) = true
saved (err e) = false

module _ {F : Type 0} {JsonError : Type 0}
    (from_json : String → Result (PersistedState F) JsonError) (path : String) (d : Disk) where
  -- What is loaded depends on the state file only.
  load_state_same :
      (d' : Disk)
      → lookup path d' ≡ lookup path d
      → load_state from_json true path d' ≡ load_state from_json true path d
  unfolding load_state
  load_state_same d' e = rw (e, load_state) refl

  load_state_new :
      (d' : Disk) (state : PersistedState F) (json : String)
      → lookup path d' ≡ some json
      → from_json json ≡ ok state
      → load_state from_json true path d' ≡ ok (some state)
  unfolding load_state
  load_state_new d' state json e k = ground (arith, e, k)

  -- The temporary file alone is written.
  load_state_tmp :
      (text : String)
      → load_state from_json true path (insert (tmp_of path) text d)
        ≡ load_state from_json true path d
  load_state_tmp text =
      load_state_same (insert (tmp_of path) text d)
        (rw (lookup-insert (tmp_of path) path text d, tmp_of-ne path) refl)

  load_state-write_and_rename :
      (attempt : Attempt) (state : PersistedState F) (json : String)
      → from_json json ≡ ok state
      → load_state from_json true path
          (write_and_rename {JsonError = JsonError} path attempt json d).0
        ≡ (if saved (write_and_rename {JsonError = JsonError} path attempt json d).1
            then ok (some state)
            else load_state from_json true path d)
  load_state-write_and_rename attempt state json k = elim (Option-cases attempt.write_fails_with) [
    | inr (part, e) ↦ rw e (load_state_tmp part)
    | inl e ↦ rw e (elim (Bool-cases attempt.renames) [
      | inl done ↦ rw done (
          load_state_new (rename_file (tmp_of path) path (insert (tmp_of path) json d)) state json
            (rw (lookup-rename_file path path json d, eq_refl path) refl) k)
      | inr kept ↦ rw kept (load_state_tmp json)
    ])
  ]

-- Where the serializer is inverse to the parser and the file can be read: after a save that
-- succeeded the saved state is loaded, and after one that failed at any step what was loaded before.
pub load_state-save_state :
    {F : Type 0} {JsonError : Type 0} (to_json : PersistedState F → Result String JsonError)
    (from_json : String → Result (PersistedState F) JsonError) (path : String) (d : Disk)
    (attempt : Attempt) (state : PersistedState F)
    → ((json : String) → to_json state ≡ ok json → from_json json ≡ ok state)
    → load_state from_json true path (save_state to_json path state attempt d).0 ≡ (
        if saved (save_state to_json path state attempt d).1
        then ok (some state)
        else load_state from_json true path d)
unfolding save_state
load_state-save_state to_json from_json path d attempt state inverse =
    elim (Result-cases (to_json state)) [
      | inl (e, q) ↦ rw (q, save_state) refl
      | inr (json, q) ↦
          rw (q, save_state)
            (load_state-write_and_rename from_json path d attempt state json (inverse json q))
    ]
