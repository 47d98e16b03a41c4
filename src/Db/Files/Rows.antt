-- ===== src/Db/Files/Rows.antt =====
-- What is read back of a file that was written to its row.
use uni_cloud_file_sync_thin.Prelude.{
  Text, text, ℕ, Bool, true, false, Option, none, some, ok, ◌≡◌, ◌∙◌, refl, ap, arith, ite,
  dec_text, ℕ_discrete, not, if◌then◌else◌, ◌==◌,
}
use mathlib.Core.Option
use uni_cloud_file_sync_thin.Core.CloudPath.Laws.{IsNormal, IsNormal-new}
use uni_cloud_file_sync_thin.Core.FileState.{FileState}
use uni_cloud_file_sync_thin.Core.Types.{DateTime}
use uni_cloud_file_sync_thin.Db.Files.{
  File, timestamp, from_timestamp, state_name, parse_state, to_row, from_row,
}

parse_state-state_name : (state : FileState) → parse_state (state_name state) ≡ some state
unfolding parse_state state_name ℕ_discrete
parse_state-state_name FileState.synced = refl
parse_state-state_name FileState.cloud_only = refl
parse_state-state_name FileState.syncing = refl
parse_state-state_name FileState.pending = refl
parse_state-state_name FileState.error = refl
parse_state-state_name FileState.excluded = refl
parse_state-state_name FileState.offline_modified = refl
parse_state-state_name FileState.conflict = refl

-- One test of the `match` on a name.
named :
    {name tested : Text} {state : FileState} {rest : Option FileState} (other : FileState)
    → tested ≡ state_name other
    → (rest ≡ some state → name ≡ state_name state)
    → (d : Dec (name ≡ tested)) → ite d (some other) rest ≡ some state
    → name ≡ state_name state
named other e later (yes p) h = p ∙ e ∙ ap state_name (some_inj h)
  where
    some_inj : {x y : FileState} → some x ≡ some y → x ≡ y
    some_inj k = ground arith
named other e later (no ne) h = later h

-- A name that is read as a state is the name of that state.
pub parse_state-some :
    (name : Text) (state : FileState) → parse_state name ≡ some state → name ≡ state_name state
unfolding parse_state state_name
parse_state-some name state =
    named FileState.synced refl
      (named FileState.cloud_only refl
        (named FileState.syncing refl
          (named FileState.pending refl
            (named FileState.error refl
              (named FileState.excluded refl
                (named FileState.offline_modified refl
                  (named FileState.conflict refl (λ h. absurd (ground arith))
                    (dec_text name (text "conflict")))
                  (dec_text name (text "offline_modified")))
                (dec_text name (text "excluded")))
              (dec_text name (text "error")))
            (dec_text name (text "pending")))
          (dec_text name (text "syncing")))
        (dec_text name (text "cloud_only")))
      (dec_text name (text "synced"))

-- An instant without its fraction of a second.
abbrev pub whole : DateTime → DateTime
whole instant = from_timestamp (timestamp instant)

-- The file as its row keeps it.
abbrev pub stored_file : ℕ → File → File
stored_file id file = record file {
  id = id;
  modified_at = whole file.modified_at;
  synced_at = Option.map whole file.synced_at;
  created_at = whole file.created_at;
  updated_at = whole file.updated_at;
}

flag : (b : Bool) → not ((if b then 1 else 0) == 0) ≡ b
flag true = refl
flag false = refl

optional :
    (o : Option DateTime) → Option.map from_timestamp (Option.map timestamp o) ≡ Option.map whole o
optional none = refl
optional (some instant) = refl

-- A file whose path is normal is read back from the row that it is written to with every field as
-- it was, but for the identifier, which is the row's, and the times, which lose their fractions of a
-- second.
pub from_row-to_row :
    (id : ℕ) (file : File)
    → IsNormal file.path
    → from_row (to_row id file) ≡ ok (stored_file id file)
unfolding from_row to_row
from_row-to_row id file n =
    rw
      (
        parse_state-state_name file.state,
        IsNormal-new file.path n,
        flag file.is_folder,
        optional file.synced_at,
      )
      refl
