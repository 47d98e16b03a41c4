-- ===== src/Core/Tests.antt =====
-- Runs of the operations on paths, file states and slugs, and the instances of the theorems there.
use uni_cloud_file_sync_thin.Prelude.{text, some, ◌≡◌, ◌↔◌, refl, dec_text, ℕ_discrete, arith}
use uni_cloud_file_sync_thin.Core.CloudPath.{new, parent, file_name, join, is_root, root}
use uni_cloud_file_sync_thin.Core.CloudPath.Laws.{IsNormal, IsWord, directory}
use uni_cloud_file_sync_thin.Core.CloudPath.Laws
use uni_cloud_file_sync_thin.Core.ProviderId.{ProviderId, as_str, from_slug}
use uni_cloud_file_sync_thin.Core.ProviderId

program : Unit {0}
unfolding new parent file_name join is_root root dec_text ℕ_discrete as_str from_slug directory
program = tt

run_new : new (text "docs\\a.txt") ≡ text "/docs/a.txt"
unfolding program
run_new = refl

run_parent : parent (text "/docs/a.txt/") ≡ some (text "/docs")
unfolding program
run_parent = refl

run_join : join (text "/docs/") (text "/a\\b") ≡ text "/docs/a\\b"
unfolding program
run_join = refl

new-IsNormal_example : IsNormal (new (text "a\\b")) × (new (new (text "a\\b")) ≡ new (text "a\\b"))
new-IsNormal_example = Laws.new-IsNormal (text "a\\b")

word : IsWord (text "ab")
word = (λ e. cc, (omega arith, (omega arith, tt)))

parent-join_example :
    (parent (join (text "/d/") (text "ab")) ≡ some (directory (text "/d/")))
    × (file_name (join (text "/d/") (text "ab")) ≡ some (text "ab"))
parent-join_example = Laws.parent-join (text "/d/") (text "ab") word

from_slug_iff_example :
    (from_slug (text "dropbox") ≡ some ProviderId.dropbox)
    ↔ (text "dropbox" ≡ as_str ProviderId.dropbox)
from_slug_iff_example = ProviderId.from_slug_iff (text "dropbox") ProviderId.dropbox
