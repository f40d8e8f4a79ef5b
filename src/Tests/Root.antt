-- ===== src/Tests/Root.antt =====
-- The client below a repository, and small functions at concrete inputs.
use crossbridge.Prelude.{some, [], ◌∷◌, ◌≡◌, refl}
use crossbridge.Prelude.Text.{codes, split, text_eq}
use crossbridge.Prelude.HashMap
use crossbridge.Prelude.FilePath.{FilePath, of_text, join, parent, path_eq}
use crossbridge.Prelude.FileSystem.{FileSystem, file, exists}
use crossbridge.Client.Commands.{root_above, repo_root_from}
use crossbridge.Client.Commands.Root.{IsRoot, repo_root_from_lem}
use crossbridge.Prelude.Decimal.{decimal}
use crossbridge.Server.Attachment.{unique_name}

abbrev files : FileSystem
files = (of_text (codes "/r/.crosslink/issues.db"), file) ∷ []

abbrev below : FilePath
below = of_text (codes "/r/src/bin")

goes_up : repo_root_from files below ≡ of_text (codes "/r")
unfolding repo_root_from root_above parent exists HashMap.contains_key HashMap.get path_eq text_eq
    join of_text split codes
goes_up = refl

repo_root_from_lem_example : IsRoot files below below (repo_root_from files below)
repo_root_from_lem_example = repo_root_from_lem files below

named : unique_name 7 (some 90) ≡ codes "xb-attach-7-90"
unfolding unique_name decimal codes
named = refl
