-- ===== src/Topology.antt =====
-- Where the three programs look for the sockets of one another.
use mathlib.Core.Option.{some-injective}
use crossbridge.Prelude.{none, some, List, ◌≡◌, refl, sym, ap, ◌∙◌}
use crossbridge.Prelude.Text.{Text, codes}
use crossbridge.Prelude.FilePath.{FilePath, of_text, join, parent, IsPlain, parent-join_plain}
use crossbridge.Protocol.Roots.{Env, default_socket_root}
use crossbridge.Supervisor.{State, slug_dir}
use crossbridge.Supervisor.Socket.{resolve_register_socket}
use crossbridge.Server.Paths.{
  SocketLayout, resolve_runtime_root, register_socket, peer_dir, register_socket_name,
}
use crossbridge.Client.Commands.{socket_dir}

abbrev pub layout_of : Env → SocketLayout
layout_of env = record { root = resolve_runtime_root none env }

register_name-IsPlain : IsPlain register_socket_name
unfolding codes
register_name-IsPlain = record { no_slash = refl; not_empty = λ e. cc; not_dot = λ e. cc }

-- Where the supervisor listens is where a server registers; the supervisor's base directory is the
-- root under which servers and clients build their paths, and the directory that it makes for a slug
-- is the one in which that slug's peers put their sockets and its client looks for them.
pub one_root :
    (env : Env) (s : State) (slug : Text)
    → parent (resolve_register_socket none env) ≡ some s.base_dir
    → (resolve_register_socket none env ≡ register_socket (layout_of env))
      × (s.base_dir ≡ default_socket_root env)
      × (slug_dir s slug ≡ peer_dir (layout_of env) slug)
      × (slug_dir s slug ≡ socket_dir env slug)
unfolding resolve_register_socket register_socket resolve_runtime_root slug_dir peer_dir socket_dir
one_root env s slug h =
    let base : s.base_dir ≡ default_socket_root env = some-injective _ _ (
      sym h
      ∙ parent-join_plain (default_socket_root env) register_socket_name register_name-IsPlain) in
    (refl, base, ap (λ p. join p (of_text slug)) base, ap (λ p. join p (of_text slug)) base)
