-- ===== src/Providers/TokenStorage.antt =====
-- crates/cloudsync-providers/src/gdrive/token_storage.rs: tokens in memory, and in the keyring of
-- the system or in a file. What yup_oauth2, serde_json, keyring and tokio do are parameters.
pub mod Recall
pub mod Tests
use uni_cloud_file_sync_thin.Prelude.{
  Text, text, Bool, true, false, Option, none, some, List, [], ◌∷◌, ◌++◌, keep, ite, dec_text, ◌&&◌,
  not, if◌then◌else◌, Result, ok, err,
}

pub record StoredToken : Type 0 where
  pub scopes : List Text
  pub token_info : Text

-- The service and the user name of the keyring, and the path of the file.
pub data StorageBackend : Type 0 where
  keyring : Text → Text → StorageBackend
  file : Text → StorageBackend
  keyring_with_fallback : Text → Text → Text → StorageBackend

-- What keyring and std report: that there is no entry or no such file, or anything else.
pub data Fault : Type 0 where
  absent : Fault
  other : Text → Fault

-- `TokenStorageError`, without the errors of serde_json, which no operation puts into it.
pub data TokenStorageError : Type 0 where
  keyring_error : Fault → TokenStorageError
  io : Fault → TokenStorageError

-- The entries of the keyring and the files of the system. `entry_new` only tests the two names.
pub record Stores (World : Type 0) : Type 0 where
  pub entry_new : Text → Text → Result Fault (Unit {0})
  pub set_password : Text → Text → Text → World → Result Fault (Unit {0}) × World
  pub get_password : Text → Text → World → Result Fault Text
  pub write : Text → Text → World → Result Fault (Unit {0}) × World
  pub read_to_string : Text → World → Result Fault Text
  pub fault_to_string : Fault → Text

-- serde_json on a token and on the list of the stored tokens.
pub record TokenJson (TokenInfo : Type 0) : Type 0 where
  pub token_to_string : TokenInfo → Result Text Text
  pub token_from_str : Text → Result Text TokenInfo
  pub all_to_string : List StoredToken → Result Text Text
  pub all_from_str : Text → Result Text (List StoredToken)

-- `available_scopes.contains(req)`
unfoldable pub contains : Text → List Text → Bool
unfolding dec_text
contains req [] = false
contains req (scope ∷ scopes) = let rest = contains req scopes in ite (dec_text scope req) true rest

-- `scopes_covered_by`
unfoldable pub scopes_covered_by : List Text → List Text → Bool
unfolding contains
scopes_covered_by available [] = true
scopes_covered_by available (req ∷ required) =
    contains req available && scopes_covered_by available required

module _ {World : Type 0} (stores : Stores World) (backend : StorageBackend) where
  abbrev pub Stored : Type 0
  Stored = Result TokenStorageError (Unit {0}) × World

  abbrev pub Retrieved : Type 0
  Retrieved = Result TokenStorageError (Option Text)

  -- The derived `Display`.
  unfoldable pub display : TokenStorageError → Text
  display (keyring_error e) = text "Keyring error: " ++ stores.fault_to_string e
  display (io e) = text "IO error: " ++ stores.fault_to_string e

  password_set : Result Fault (Unit {0}) × World → Stored
  password_set (ok _, w) = (ok tt, w)
  password_set (err e, w) = (err (keyring_error e), w)

  -- `store_in_keyring`
  unfoldable pub store_in_keyring : Text → Text → Text → World → Stored
  unfolding password_set
  store_in_keyring service user value w = entered (stores.entry_new service user)
    where
      entered : Result Fault (Unit {0}) → Stored
      entered (ok _) = password_set (stores.set_password service user value w)
      entered (err e) = (err (keyring_error e), w)

  password_got : Result Fault Text → Retrieved
  password_got (ok password) = ok (some password)
  password_got (err absent) = ok none
  password_got (err (other e)) = err (keyring_error (other e))

  -- `retrieve_from_keyring`
  unfoldable pub retrieve_from_keyring : Text → Text → World → Retrieved
  unfolding password_got
  retrieve_from_keyring service user w = entered (stores.entry_new service user)
    where
      entered : Result Fault (Unit {0}) → Retrieved
      entered (ok _) = password_got (stores.get_password service user w)
      entered (err e) = err (keyring_error e)

  written : Result Fault (Unit {0}) × World → Stored
  written (ok _, w) = (ok tt, w)
  written (err e, w) = (err (io e), w)

  -- `store_in_file`
  unfoldable pub store_in_file : Text → Text → World → Stored
  unfolding written
  store_in_file path value w = written (stores.write path value w)

  content_read : Result Fault Text → Retrieved
  content_read (ok content) = ok (some content)
  content_read (err absent) = ok none
  content_read (err (other e)) = err (io (other e))

  -- `retrieve_from_file`
  unfoldable pub retrieve_from_file : Text → World → Retrieved
  unfolding content_read
  retrieve_from_file path w = content_read (stores.read_to_string path w)

  store_or_file : Text → Text → Stored → Stored
  unfolding store_in_file
  store_or_file fallback_path value (ok _, w) = (ok tt, w)
  store_or_file fallback_path value (err e, w) = store_in_file fallback_path value w

  store_in : StorageBackend → Text → World → Stored
  unfolding store_or_file store_in_keyring store_in_file
  store_in (keyring service user) value w = store_in_keyring service user value w
  store_in (file path) value w = store_in_file path value w
  store_in (keyring_with_fallback service user path) value w =
      store_or_file path value (store_in_keyring service user value w)

  -- `store_token`: the key is not used.
  unfoldable pub store_token : Text → World → Stored
  unfolding store_in
  store_token value w = store_in backend value w

  retrieve_or_file : Text → World → Retrieved → Retrieved
  unfolding retrieve_from_file
  retrieve_or_file path w (ok (some value)) = ok (some value)
  retrieve_or_file path w (ok none) = retrieve_from_file path w
  retrieve_or_file path w (err e) = retrieve_from_file path w

  retrieve_from : StorageBackend → World → Retrieved
  unfolding retrieve_or_file retrieve_from_keyring retrieve_from_file
  retrieve_from (keyring service user) w = retrieve_from_keyring service user w
  retrieve_from (file path) w = retrieve_from_file path w
  retrieve_from (keyring_with_fallback service user path) w =
      retrieve_or_file path w (retrieve_from_keyring service user w)

  -- `retrieve_token`: the key is not used.
  unfoldable pub retrieve_token : World → Retrieved
  unfolding retrieve_from
  retrieve_token w = retrieve_from backend w

  module _ {TokenInfo : Type 0} (codec : TokenJson TokenInfo) where
    -- The cache and the world.
    abbrev pub StorageState : Type 0
    StorageState = List StoredToken × World

    -- `cache.retain(…)` and `cache.push(…)`
    unfoldable pub retained : List Text → Text → List StoredToken → List StoredToken
    unfolding scopes_covered_by keep
    retained scopes token_json cache =
        keep (λ t. not (scopes_covered_by t.scopes scopes)) cache
        ++ record { scopes = scopes; token_info = token_json } ∷ []

    -- An error of the backend becomes one of yup_oauth2 with its message.
    stored : List StoredToken → Stored → Result Text (Unit {0}) × StorageState
    unfolding display
    stored cache (ok _, w) = (ok tt, (cache, w))
    stored cache (err e, w) = (err (display e), (cache, w))

    store_all : List StoredToken → World → Result Text Text → Result Text (Unit {0}) × StorageState
    unfolding stored store_token
    store_all cache w (ok all_tokens_json) = stored cache (store_token all_tokens_json w)
    store_all cache w (err e) = (err e, (cache, w))

    set_json : List Text → StorageState → Result Text Text → Result Text (Unit {0}) × StorageState
    unfolding store_all retained
    set_json scopes (cache, w) (ok token_json) =
        store_all (retained scopes token_json cache) w
          (codec.all_to_string (retained scopes token_json cache))
    set_json scopes (cache, w) (err e) = (err e, (cache, w))

    -- `set`
    unfoldable pub set_token :
        List Text → TokenInfo → StorageState → Result Text (Unit {0}) × StorageState
    unfolding set_json
    set_token scopes token s = set_json scopes s (codec.token_to_string token)

    or_else : Option TokenInfo → Result Text TokenInfo → Option TokenInfo
    or_else rest (ok token) = some token
    or_else rest (err e) = rest

    -- The first token in the list that covers the scopes and can be read.
    unfoldable pub find_token : List Text → List StoredToken → Option TokenInfo
    unfolding or_else scopes_covered_by
    find_token scopes [] = none
    find_token scopes (stored ∷ tokens) =
        let rest = find_token scopes tokens in
        if scopes_covered_by stored.scopes scopes
        then or_else rest (codec.token_from_str stored.token_info)
        else rest

    parsed_all :
        List Text → StorageState → Result Text (List StoredToken) → Option TokenInfo × StorageState
    unfolding find_token
    parsed_all scopes (cache, w) (ok tokens) = (find_token scopes tokens, (tokens, w))
    parsed_all scopes s (err e) = (none, s)

    from_backend : List Text → StorageState → Retrieved → Option TokenInfo × StorageState
    unfolding parsed_all
    from_backend scopes s (ok (some json)) = parsed_all scopes s (codec.all_from_str json)
    from_backend scopes s (ok none) = (none, s)
    from_backend scopes s (err e) = (none, s)

    from_cache : List Text → StorageState → Option TokenInfo → Option TokenInfo × StorageState
    unfolding from_backend retrieve_token
    from_cache scopes s (some token) = (some token, s)
    from_cache scopes s none = from_backend scopes s (retrieve_token s.1)

    -- `get`
    unfoldable pub get_token : List Text → StorageState → Option TokenInfo × StorageState
    unfolding from_cache find_token
    get_token scopes s = from_cache scopes s (find_token scopes s.0)
