-- ===== src/Providers/TokenStorage/Tests.antt =====
-- Runs of the token storage, and the instance of the theorem there.
use uni_cloud_file_sync_thin.Prelude.{
  Text, text, Option, none, some, List, [], ◌∷◌, ◌++◌, keep, Result, ok, err, ◌≡◌, refl, sym, ap,
  arith, dec_text, ℕ_discrete, length, take, drop, take_prefix, drop_prefix,
}
use uni_cloud_file_sync_thin.Providers.TokenStorage.{
  StoredToken, Fault, absent, other, file, keyring_with_fallback, Stores, TokenJson, contains,
  scopes_covered_by, store_token, retrieve_token, retained, display, set_token, find_token,
  get_token,
}
use uni_cloud_file_sync_thin.Providers.TokenStorage.Recall.{
  IsStores, IsTokenJson, set_token-get_token,
}

-- The world: what the keyring and the file hold. This keyring cannot be written.
abbrev World : Type 0
World = Option Text × Option Text

abbrev there : Option Text → Result Fault Text
there (some value) = ok value
there none = err absent

abbrev stores : Stores World
stores = record {
  entry_new = λ service user. ok tt;
  set_password = λ service user value w. (err (other (text "locked")), w);
  get_password = λ service user w. there w.0;
  write = λ path value w. (ok tt, (w.0, some value));
  read_to_string = λ path w. there w.1;
  fault_to_string = λ e. text "fault";
}

stores-IsStores : IsStores stores
stores-IsStores = record {
  password_back = λ service user value w w' h. absurd (ground arith);
  file_back = λ path value w w' h. ap there (sym (ap (λ r. r.1.1) h));
}

-- One token with one scope, with the length of the scope first.
all_text : List StoredToken → Result Text Text
all_text [] = err (text "no token")
all_text (t ∷ []) = one t.scopes t.token_info
  where
    one : List Text → Text → Result Text Text
    one (scope ∷ []) info = ok (length scope ∷ scope ++ info)
    one _ info = err (text "no scope")
all_text (t ∷ u ∷ tokens) = err (text "two tokens")

all_of : Text → Result Text (List StoredToken)
all_of [] = err (text "no text")
all_of (n ∷ json) = ok (record { scopes = take n json ∷ []; token_info = drop n json } ∷ [])

abbrev codec : TokenJson Text
codec = record {
  token_to_string = λ token. ok token;
  token_from_str = λ json. ok json;
  all_to_string = all_text;
  all_from_str = all_of;
}

ok_inj : {x y : Text} → ◌≡◌ {A = Result Text Text} (ok x) (ok y) → x ≡ y
ok_inj h = ground arith

all_of-all_text :
    (tokens : List StoredToken) (json : Text) → all_text tokens ≡ ok json → all_of json ≡ ok tokens
unfolding all_of all_text
all_of-all_text [] json h = absurd (ground arith)
all_of-all_text (t ∷ []) json h = back t.scopes t.token_info json h
  where
    back :
        (scopes : List Text) (info json : Text)
        → all_text (record { scopes = scopes; token_info = info } ∷ []) ≡ ok json
        → all_of json ≡ ok (record { scopes = scopes; token_info = info } ∷ [])
    back [] info json h = absurd (ground arith)
    back (scope ∷ []) info json h =
        rw (← ok_inj h) (rw (take_prefix scope info, drop_prefix scope info) refl)
    back (scope ∷ second ∷ scopes) info json h = absurd (ground arith)
all_of-all_text (t ∷ u ∷ tokens) json h = absurd (ground arith)

codec-IsTokenJson : IsTokenJson codec
codec-IsTokenJson = record {
  token_back = λ token json h. ap ok (sym (ok_inj h));
  all_back = all_of-all_text;
}

program : Unit {0}
unfolding display set_token get_token find_token retained store_token retrieve_token
    scopes_covered_by contains all_text all_of keep take drop dec_text ℕ_discrete
program = tt

abbrev drive : List Text
drive = text "drive" ∷ []

abbrev saved : Text
saved = 5 ∷ text "drive" ++ text "new"

run_set :
    set_token stores (file (text "f")) codec drive (text "new") ([], (none, none))
    ≡ (ok tt, (record { scopes = drive; token_info = text "new" } ∷ [], (none, some saved)))
unfolding program
run_set = refl

-- A token for more scopes is dropped when one for fewer of them is stored, although it is not
-- replaced: it is then found for none of the others.
run_narrower :
    find_token stores (file (text "f")) codec (text "mail" ∷ []) (
      retained stores
        (file (text "f"))
        codec
        drive
        (text "new")
        (record { scopes = text "drive" ∷ text "mail" ∷ []; token_info = text "both" } ∷ []))
    ≡ none
unfolding program
run_narrower = refl

-- With the fallback, an old value of a keyring that cannot be written hides the file.
run_stale :
    (get_token stores (keyring_with_fallback (text "s") (text "u") (text "f")) codec drive (
      [],
      (set_token stores
          (keyring_with_fallback (text "s") (text "u") (text "f"))
          codec
          drive
          (text "new")
          ([], (some (5 ∷ text "drive" ++ text "old"), none))).1.1,
    )).0
    ≡ some (text "old")
unfolding program
run_stale = refl

set_token-get_token_example :
    ((get_token stores
        (file (text "f"))
        codec
        drive
        (record { scopes = drive; token_info = text "new" } ∷ [], (none, some saved))).0
      ≡ some (text "new"))
    × ((get_token stores (file (text "f")) codec drive ([], (none, some saved))).0
        ≡ some (text "new"))
unfolding program
set_token-get_token_example =
    set_token-get_token stores stores-IsStores (file (text "f")) codec codec-IsTokenJson drive
      (text "new") ([], (none, none))
      (record { scopes = drive; token_info = text "new" } ∷ [], (none, some saved)) refl refl
