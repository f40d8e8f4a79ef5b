-- ===== src/Supervisor/Socket.antt =====
-- crossbridge-supervisor/src/lib.rs: the register socket.
use crossbridge.Prelude.{Option, none, some}
use crossbridge.Prelude.Text.{codes}
use crossbridge.Prelude.FilePath.{FilePath, of_text, join}
use crossbridge.Protocol.Roots.{Env, default_socket_root}

unfoldable pub resolve_register_socket : Option FilePath → Env → FilePath
resolve_register_socket (some p) env = p
resolve_register_socket none env =
    join (default_socket_root env) (of_text (codes "register.socket"))
