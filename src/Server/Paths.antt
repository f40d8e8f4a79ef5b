-- ===== src/Server/Paths.antt =====
-- crossbridge-server/src/paths.rs: where the sockets of a server are.
use crossbridge.Prelude.{Option, none, some, ◌++◌}
use crossbridge.Prelude.Text.{Text, codes}
use crossbridge.Prelude.FilePath.{FilePath, of_text, join}
use crossbridge.Protocol.Roots.{Env, default_socket_root}

unfoldable pub resolve_runtime_root : Option FilePath → Env → FilePath
resolve_runtime_root (some p) env = p
resolve_runtime_root none env = default_socket_root env

abbrev pub register_socket_name : Text
register_socket_name = codes "register.socket"

pub record SocketLayout : Type 0 where
  pub root : FilePath

unfoldable pub register_socket : SocketLayout → FilePath
register_socket l = join l.root (of_text register_socket_name)

unfoldable pub peer_dir : SocketLayout → Text → FilePath
peer_dir l peer_slug = join l.root (of_text peer_slug)

abbrev pub socket_name : Text → Text
socket_name slug = slug ++ codes ".socket"

unfoldable pub listener_socket : SocketLayout → Text → Text → FilePath
unfolding peer_dir
listener_socket l peer_slug own_slug = join (peer_dir l peer_slug) (of_text (socket_name own_slug))
