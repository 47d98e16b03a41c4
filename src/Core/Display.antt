-- ===== src/Core/Display.antt =====
-- crates/cloudsync-core/src/error.rs: the messages that `thiserror` derives for `Display`.
use uni_cloud_file_sync_thin.Prelude.{
  Text, text, ℕ, zero, suc, [], ◌∷◌, ◌++◌, ◌+◌, ◌/◌, ◌%◌, ltb, if◌then◌else◌, ◌≡◌, refl,
}
use uni_cloud_file_sync_thin.Core.Types.{Error}

-- The decimal digits of a number below 10 to the power of the first argument.
decimal_digits : ℕ → ℕ → Text
decimal_digits zero n = []
decimal_digits (suc f) n =
    let front = decimal_digits f (n / 10) in
    if ltb n 10 then (48 + n) ∷ [] else front ++ (48 + n % 10) ∷ []

-- A `u64` has at most 20 digits.
unfoldable pub decimal : ℕ → Text
unfolding decimal_digits
decimal n = decimal_digits 20 n

unfoldable pub display : Error → Text
unfolding decimal
display (Error.authentication m) = text "Authentication failed: " ++ m
display (Error.token_expired p) = text "Token expired for provider " ++ p
display (Error.provider_api p m) = text "Provider API error: " ++ m
display (Error.rate_limited p n) =
    text "Rate limited by " ++ p ++ text ", retry after " ++ decimal n ++ text " seconds"
display (Error.network m) = text "Network error: " ++ m
display (Error.file_not_found p) = text "File not found: " ++ p
display (Error.permission_denied p) = text "Permission denied: " ++ p
display (Error.conflict p) = text "Conflict detected for file: " ++ p
display (Error.invalid_path p) = text "Invalid path: " ++ p
display (Error.database m) = text "Database error: " ++ m
display (Error.config m) = text "Configuration error: " ++ m
display (Error.io m) = text "IO error: " ++ m
display (Error.serialization m) = text "Serialization error: " ++ m
display Error.cancelled = text "Operation cancelled"
display (Error.unsupported_provider p) = text "Provider not supported: " ++ p
display (Error.quota_exceeded p) = text "Quota exceeded for provider " ++ p
display (Error.invalid_operation m) = text "Invalid operation: " ++ m
display (Error.cloud_native_file url) =
    text "Cloud-native file cannot be downloaded (open in browser): " ++ url

decimal_example : decimal 3600 ≡ text "3600"
unfolding decimal
decimal_example = refl
