-- ===== src/Client/Labels.antt =====
-- crossbridge-client/src/labels.rs: the labels that mark an issue's part in the exchange.
use crossbridge.Prelude.{Bool, Option, none, some, List, [], ◌∷◌, ◌++◌, contains}
use crossbridge.Prelude.Text.{Text, codes, strip_prefix, text_has_eq}

abbrev pub inbound : Text
inbound = codes "xb:inbound"

abbrev pub outbound : Text
outbound = codes "xb:outbound"

abbrev pub status_pending : Text
status_pending = codes "xb-status:pending"

abbrev pub status_answered : Text
status_answered = codes "xb-status:answered"

abbrev pub source_prefix : Text
source_prefix = codes "xb-source:"

abbrev pub ref_prefix : Text
ref_prefix = codes "xb-ref:"

unfoldable pub ref_label : Text → Text
ref_label value = ref_prefix ++ value

-- The value behind the prefix in the first label that has it.
unfoldable pub find_prefixed : List Text → Text → Option Text
unfolding strip_prefix
find_prefixed [] prefix = none
find_prefixed (l ∷ labels) prefix =
    let later = find_prefixed labels prefix in
    elim (strip_prefix prefix l) [ some value ↦ some value | none ↦ later ]

unfoldable pub has : List Text → Text → Bool
has labels marker = contains labels marker
