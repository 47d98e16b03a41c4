-- ===== src/Providers/TokenStorage/Recall.antt =====
-- A token that was stored is found again, by the same storage and by a new one.
use uni_cloud_file_sync_thin.Prelude.{
  Text, Bool, true, false, some, List, [], ◌∷◌, ◌++◌, keep, not, Result, Result-cases, ok, err, ◌≡◌,
  inl, inr, refl, sym, ◌∙◌, ap, arith, Bool-cases,
}
use uni_cloud_file_sync_thin.Providers.TokenStorage.{
  StoredToken, StorageBackend, keyring, file, keyring_with_fallback, Stores, TokenJson, contains,
  scopes_covered_by, store_in, store_token, retrieve_from, retrieve_token, retained, store_all,
  stored, Stored, Fault, TokenStorageError, password_set, store_in_keyring, password_got,
  retrieve_from_keyring, written, store_in_file, content_read, retrieve_from_file, set_json,
  set_token, or_else, find_token, parsed_all, from_backend, from_cache, get_token,
}

-- What is written to a place of the system is read back from it.
pub record IsStores {World : Type 0} (stores : Stores World) : Type 0 where
  pub password_back :
      (service user value : Text) (w w' : World)
      → stores.set_password service user value w ≡ (ok tt, w')
      → stores.get_password service user w' ≡ ok value
  pub file_back :
      (path value : Text) (w w' : World)
      → stores.write path value w ≡ (ok tt, w')
      → stores.read_to_string path w' ≡ ok value

-- What is serialised is read back.
pub record IsTokenJson {TokenInfo : Type 0} (codec : TokenJson TokenInfo) : Type 0 where
  pub token_back :
      (token : TokenInfo) (json : Text)
      → codec.token_to_string token ≡ ok json
      → codec.token_from_str json ≡ ok token
  pub all_back :
      (tokens : List StoredToken) (json : Text)
      → codec.all_to_string tokens ≡ ok json
      → codec.all_from_str json ≡ ok tokens

-- A backend with one place.
abbrev pub is_single : StorageBackend → Bool
is_single (keyring service user) = true
is_single (file path) = true
is_single (keyring_with_fallback service user path) = false

covered-cons :
    (scope : Text) (available required : List Text)
    → scopes_covered_by available required ≡ true
    → scopes_covered_by (scope ∷ available) required ≡ true
unfolding scopes_covered_by contains
covered-cons scope available [] h = refl
covered-cons scope available (req ∷ required) h =
    ground (arith, covered-cons scope available required)

covered_self : (scopes : List Text) → scopes_covered_by scopes scopes ≡ true
unfolding scopes_covered_by contains
covered_self [] = refl
covered_self (scope ∷ scopes) =
    let rest = covered-cons scope scopes scopes (covered_self scopes) in ground arith

module _ {World : Type 0} (stores : Stores World) (laws : IsStores stores)
    (backend : StorageBackend) {TokenInfo : Type 0} (codec : TokenJson TokenInfo)
    (codec_laws : IsTokenJson codec) where
  abbrev State : Type 0
  State = List StoredToken × World

  find_token-last :
      (scopes : List Text) (json : Text) (token : TokenInfo) (cache : List StoredToken)
      → codec.token_from_str json ≡ ok token
      → find_token stores backend codec scopes (
          keep (λ t. not (scopes_covered_by t.scopes scopes)) cache
          ++ record { scopes = scopes; token_info = json } ∷ [])
        ≡ some token
  unfolding find_token or_else keep
  find_token-last scopes json token [] e = rw (covered_self scopes, e) refl
  find_token-last scopes json token (t ∷ cache) e =
      elim (Bool-cases (scopes_covered_by t.scopes scopes)) [
        | inl covers ↦ rw covers (find_token-last scopes json token cache e)
        | inr other ↦ rw other (rw other (find_token-last scopes json token cache e))
      ]

  failed_ne_ok :
      {e : TokenStorageError} {w w' : World}
      → ◌≡◌ {A = Stored stores backend} (err e, w) (ok tt, w')
      → ⊥
  failed_ne_ok h = ground arith

  file-back :
      (path value : Text) (w w' : World)
      → store_in_file stores backend path value w ≡ (ok tt, w')
      → retrieve_from_file stores backend path w' ≡ ok (some value)
  unfolding store_in_file written retrieve_from_file content_read
  file-back path value w w' h = kept _ refl h
    where
      kept :
          (r : Result Fault (Unit {0}) × World)
          → stores.write path value w ≡ r
          → written stores backend r ≡ (ok tt, w')
          → content_read stores backend (stores.read_to_string path w') ≡ ok (some value)
      kept (ok _, w2) e k = rw (laws.file_back path value w w' (e ∙ ap (λ r. (ok tt, r.1)) k)) refl
      kept (err x, w2) e k = absurd (failed_ne_ok k)

  keyring-back :
      (service user value : Text) (w w' : World)
      → store_in_keyring stores backend service user value w ≡ (ok tt, w')
      → retrieve_from_keyring stores backend service user w' ≡ ok (some value)
  unfolding store_in_keyring password_set retrieve_from_keyring password_got
  keyring-back service user value w w' h = elim (Result-cases (stores.entry_new service user)) [
    | inr (x, e) ↦ absurd (failed_ne_ok (rw e at h))
    | inl (u, e) ↦ rw e (kept _ refl (rw e at h))
  ]
    where
      kept :
          (r : Result Fault (Unit {0}) × World)
          → stores.set_password service user value w ≡ r
          → password_set stores backend r ≡ (ok tt, w')
          → password_got stores backend (stores.get_password service user w') ≡ ok (some value)
      kept (ok _, w2) e k =
          rw (laws.password_back service user value w w' (e ∙ ap (λ r. (ok tt, r.1)) k)) refl
      kept (err x, w2) e k = absurd (failed_ne_ok k)

  store_token-back :
      (value : Text) (w w' : World)
      → is_single backend ≡ true
      → store_token stores backend value w ≡ (ok tt, w')
      → retrieve_token stores backend w' ≡ ok (some value)
  unfolding store_token retrieve_token store_in retrieve_from
  store_token-back value w w' single h = kept backend single h
    where
      kept :
          (b : StorageBackend)
          → is_single b ≡ true
          → store_in stores backend b value w ≡ (ok tt, w')
          → retrieve_from stores backend b w' ≡ ok (some value)
      kept (keyring service user) single h = keyring-back service user value w w' h
      kept (file path) single h = file-back path value w w' h
      kept (keyring_with_fallback service user path) single h = absurd (ground arith)

  err_ne_ok :
      {e : Text} {s s' : State}
      → ◌≡◌ {A = Result Text (Unit {0}) × State} (err e, s) (ok tt, s')
      → ⊥
  err_ne_ok h = ground arith

  stored-ok :
      (cache : List StoredToken) (r : Stored stores backend) (s' : State)
      → stored stores backend codec cache r ≡ (ok tt, s')
      → (s'.0 ≡ cache) × (r ≡ (ok tt, s'.1))
  unfolding stored
  stored-ok cache (ok _, w) s' h = (sym (ap (λ r. r.1.0) h), ap (λ r. (ok tt, r.1.1)) h)
  stored-ok cache (err e, w) s' h = absurd (err_ne_ok h)

  -- What happens when `set` succeeds.
  set_token-ok :
      (scopes : List Text) (token : TokenInfo) (s s' : State)
      → set_token stores backend codec scopes token s ≡ (ok tt, s')
      → (json : Text) × ((all_json : Text) × ((codec.token_to_string token ≡ ok json)
            × ((codec.all_to_string (retained stores backend codec scopes json s.0) ≡ ok all_json)
                × ((s'.0 ≡ retained stores backend codec scopes json s.0)
                    × (store_token stores backend all_json s.1 ≡ (ok tt, s'.1))))))
  unfolding set_token set_json store_all
  set_token-ok scopes token s s' h = elim (Result-cases (codec.token_to_string token)) [
    | inr (x, e) ↦ absurd (err_ne_ok (rw e at h))
    | inl (json, e) ↦
        elim (Result-cases (codec.all_to_string (retained stores backend codec scopes json s.0))) [
          | inr (x, f) ↦ absurd (err_ne_ok (rw (e, f) at h))
          | inl (all_json, f) ↦ (json, (all_json, (e, (f, stored-ok _ _ s' (rw (e, f) at h)))))
        ]
  ]

  cached_get :
      (scopes : List Text) (json : Text) (token : TokenInfo) (s s' : State)
      → codec.token_from_str json ≡ ok token
      → s'.0 ≡ retained stores backend codec scopes json s.0
      → (get_token stores backend codec scopes s').0 ≡ some token
  unfolding get_token from_cache retained
  cached_get scopes json token s s' e cached =
      rw (cached, find_token-last scopes json token s.0 e) refl

  fresh_get :
      (scopes : List Text) (json : Text) (token : TokenInfo) (all_json : Text) (s s' : State)
      → codec.token_from_str json ≡ ok token
      → codec.all_from_str all_json ≡ ok (retained stores backend codec scopes json s.0)
      → retrieve_token stores backend s'.1 ≡ ok (some all_json)
      → (get_token stores backend codec scopes ([], s'.1)).0 ≡ some token
  unfolding get_token from_cache from_backend parsed_all retained find_token
  fresh_get scopes json token all_json s s' e all there =
      rw (there, all) (find_token-last scopes json token s.0 e)

  -- If what is written to the keyring or to a file is read back from there, and what is serialised
  -- is parsed as it was: after `set` has succeeded, with a backend of one place, `get` for the same
  -- scopes gives the token; and so it does in a new storage with an empty cache, which reads the
  -- backend.
  pub set_token-get_token :
      (scopes : List Text) (token : TokenInfo) (s s' : State)
      → is_single backend ≡ true
      → set_token stores backend codec scopes token s ≡ (ok tt, s')
      → ((get_token stores backend codec scopes s').0 ≡ some token)
        × ((get_token stores backend codec scopes ([], s'.1)).0 ≡ some token)
  set_token-get_token scopes token s s' single h =
      let (json, (all_json, (e, (f, (cached, stored_all))))) = set_token-ok scopes token s s' h in
      (
        cached_get scopes json token s s' (codec_laws.token_back token json e) cached,
        fresh_get scopes json token all_json s s' (codec_laws.token_back token json e)
            (codec_laws.all_back _ all_json f)
            (store_token-back all_json s.1 s'.1 single stored_all),
      )
