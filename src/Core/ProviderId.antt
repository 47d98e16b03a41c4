-- ===== src/Core/ProviderId.antt =====
-- crates/cloudsync-core/src/types.rs, `ProviderId` and its slugs.
use uni_cloud_file_sync_thin.Prelude.{
  Text, text, Option, none, some, ite, dec_text, ◌≡◌, ◌↔◌, refl, ap, ◌∙◌, arith, ℕ_discrete,
}

pub data ProviderId : Type 0 where
  google_drive dropbox one_drive : ProviderId

-- `ProviderId::as_str`
unfoldable pub as_str : ProviderId → Text
as_str google_drive = text "gdrive"
as_str dropbox = text "dropbox"
as_str one_drive = text "onedrive"

-- `ProviderId::from_slug`
unfoldable pub from_slug : Text → Option ProviderId
unfolding dec_text
from_slug slug = ite (dec_text slug (text "gdrive")) (some google_drive) (
    ite (dec_text slug (text "dropbox")) (some dropbox)
      (ite (dec_text slug (text "onedrive")) (some one_drive) none))

-- `ProviderId::display_name`
unfoldable pub display_name : ProviderId → Text
display_name google_drive = text "Google Drive"
display_name dropbox = text "Dropbox"
display_name one_drive = text "OneDrive"

from_slug-as_str : (p : ProviderId) → from_slug (as_str p) ≡ some p
unfolding from_slug as_str ℕ_discrete
from_slug-as_str google_drive = refl
from_slug-as_str dropbox = refl
from_slug-as_str one_drive = refl

as_str-from_slug : (s : Text) (p : ProviderId) → from_slug s ≡ some p → s ≡ as_str p
unfolding from_slug as_str
as_str-from_slug s google_drive h = ground arith
as_str-from_slug s dropbox h = ground arith
as_str-from_slug s one_drive h = ground arith

-- A slug is parsed as a provider exactly when it is that provider's string.
pub from_slug_iff : (s : Text) (p : ProviderId) → (from_slug s ≡ some p) ↔ (s ≡ as_str p)
from_slug_iff s p = (as_str-from_slug s p, λ e. ap from_slug e ∙ from_slug-as_str p)
