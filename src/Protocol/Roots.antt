-- ===== src/Protocol/Roots.antt =====
-- crossbridge-protocol/src/lib.rs: the environment variables, and where the sockets are.

use crossbridge.Prelude.{Bool, Option, none, some, if◌then◌else◌, is_empty}
use crossbridge.Prelude.Text.{Text, codes, trim}
use crossbridge.Prelude.FilePath.{FilePath, of_text, join}

-- `OsString`: bytes that may be no UTF-8 text.
pub record OsString : Type 0 where
  pub text : Text
  pub is_utf8 : Bool

-- `env_lookup`
abbrev pub Env : Type 0
Env = Text → Option OsString

abbrev pub default_socket_root_text : Text
default_socket_root_text = codes "/run/crossbridge"

abbrev pub socket_root_env : Text
socket_root_env = codes "CROSSBRIDGE_SOCKET_ROOT"

abbrev pub xdg_runtime_dir_env : Text
xdg_runtime_dir_env = codes "XDG_RUNTIME_DIR"

abbrev pub own_slug_env : Text
own_slug_env = codes "CROSSBRIDGE_OWN_SLUG"

-- `OsString::into_string`
unfoldable pub into_string : OsString → Option Text
into_string s = if s.is_utf8 then some s.text else none

abbrev pub non_empty : Text → Option Text
non_empty s = if is_empty s then none else some s

unfoldable pub own_slug_from_env : Env → Option Text
unfolding into_string
own_slug_from_env env = elim (env own_slug_env) [
  | none ↦ none
  | some raw ↦ elim (into_string raw) [ none ↦ none | some s ↦ non_empty (trim s) ]
]

unfoldable pub default_socket_root : Env → FilePath
default_socket_root env = elim (env socket_root_env) [
  | some root ↦ of_text root.text
  | none ↦ elim (env xdg_runtime_dir_env) [
    | some xdg ↦ join (of_text xdg.text) (of_text (codes "crossbridge"))
    | none ↦ of_text default_socket_root_text
  ]
]
