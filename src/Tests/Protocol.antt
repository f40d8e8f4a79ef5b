-- ===== src/Tests/Protocol.antt =====
-- Frames, socket paths and origin URLs.
use crossbridge.Prelude.{
  ℕ, false, none, some, [], ◌∷◌, ◌++◌, ◌≡◌, refl, length, take, any, arith, ok, ◌≤◌, ◌<◌, ◌⊎◌, err,
  ltb, if◌then◌else◌, ◌-◌,
}
use crossbridge.Prelude.Text.{Text, codes, text_eq, split, is_whitespace}
use crossbridge.Prelude.FilePath.{of_text, parent, join}
use crossbridge.Prelude.Action.{Action}
use crossbridge.Protocol.{IoError, other, io, postcard, frame_too_large, max_frame_size}
use crossbridge.Protocol.Framing.{
  Bytes, Codec, Write, eof, vec_write, slice_read, to_be_bytes, encode, write_message_sync,
  read_message_sync,
}
use crossbridge.Protocol.Framing.RoundTrip.{IsFaithful, frame, send, receive, receive-send}
use crossbridge.Protocol.Framing.Limits.{IsWriter, GoesOut, write_message_sync_lem, read_truncated}
use crossbridge.Protocol.Roots.{Env, default_socket_root, non_empty}
use crossbridge.Supervisor.{init, slug_dir, State}
use crossbridge.Supervisor.Socket.{resolve_register_socket}
use crossbridge.Server.Paths.{register_socket, peer_dir}
use crossbridge.Server.Slug as ServerSlug
use crossbridge.Server.Slug.{parse_slug, is_slash}
use crossbridge.Client.Commands.{socket_dir}
use crossbridge.Client.Slug.{parse_origin_url}
use crossbridge.Topology.{layout_of, one_root}
use crossbridge.Naming.{path_of, url_of, IsSegment, parsers_agree_url, trailing_slash_differs}

-- Messages that are their own payload.
abbrev raw : Codec Bytes
raw = record { to_stdvec = λ b. ok b; from_bytes = λ b. ok b }

raw-IsFaithful : IsFaithful raw
raw-IsFaithful = record { decodes = λ msg payload h. ground arith }

sends_two : (send raw ((1 ∷ 2 ∷ []) ∷ (3 ∷ []) ∷ []) []).0 ≡ ok tt
unfolding send write_message_sync encode to_be_bytes
sends_two = refl

receive-send_example :
    receive raw 2 ((send raw ((1 ∷ 2 ∷ []) ∷ (3 ∷ []) ∷ []) []).1 ++ 9 ∷ [])
    ≡ (ok ((1 ∷ 2 ∷ []) ∷ (3 ∷ []) ∷ []), 9 ∷ [])
receive-send_example =
    receive-send raw raw-IsFaithful ((1 ∷ 2 ∷ []) ∷ (3 ∷ []) ∷ []) (9 ∷ []) sends_two

-- A writer with room for so many bytes.
abbrev full : IoError
full = record { kind = other; message = codes "no space left" }

unfoldable write_within : Bytes → Action (ℕ × Bytes) IoError Unit
write_within b (room, out) =
    if ltb room (length b)
    then (err full, (0, out ++ take room b))
    else (ok tt, (room - length b, out ++ b))

abbrev within : Write (ℕ × Bytes)
within = record { write_all = write_within }

within-IsWriter : IsWriter within (λ s. s.1)
unfolding write_within
within-IsWriter = record {
  whole = λ b s s' h. ground (arith, h);
  partial_write = λ b s s' e h. (s.0, ground (arith, h), ground (arith, h));
}

write_message_sync_lem_example :
    let written = write_message_sync within raw (7 ∷ 8 ∷ []) (5, []) in
    ((payload : Bytes) × (raw.to_stdvec (7 ∷ 8 ∷ []) ≡ ok payload)
      × (length payload ≤ max_frame_size)
      × GoesOut within (λ s. s.1) within-IsWriter raw payload (5, []) written)
    ⊎ ((payload : Bytes) × (raw.to_stdvec (7 ∷ 8 ∷ []) ≡ ok payload)
        × (max_frame_size < length payload)
        × (written ≡ (err (frame_too_large (length payload) max_frame_size), (5, []))))
    ⊎ ((e : Text) × (raw.to_stdvec (7 ∷ 8 ∷ []) ≡ err e) × (written ≡ (err (postcard e), (5, []))))
write_message_sync_lem_example =
    write_message_sync_lem within (λ s. s.1) within-IsWriter raw (7 ∷ 8 ∷ []) (5, [])

is_cut :
    write_message_sync within raw (7 ∷ 8 ∷ []) (5, [])
    ≡ (err (io full), (0, 0 ∷ 0 ∷ 0 ∷ 2 ∷ 7 ∷ []))
unfolding write_message_sync write_within encode to_be_bytes
is_cut = refl

read_truncated_example :
    (read_message_sync slice_read raw (take 5 (frame (7 ∷ 8 ∷ [])))).0 ≡ err (io eof)
read_truncated_example =
    read_truncated raw (7 ∷ 8 ∷ []) 5 (omega arith) (unfold to_be_bytes in omega arith)

sends_one : (write_message_sync vec_write raw (1 ∷ []) []).0 ≡ ok tt
unfolding write_message_sync encode to_be_bytes
sends_one = refl

abbrev no_env : Env
no_env k = none

abbrev started : State
started = init (of_text (codes "/run/crossbridge")) []

started_lem : parent (resolve_register_socket none no_env) ≡ some started.base_dir
unfolding resolve_register_socket default_socket_root parent join of_text split codes init text_eq
started_lem = refl

one_root_example :
    (resolve_register_socket none no_env ≡ register_socket (layout_of no_env))
    × (started.base_dir ≡ default_socket_root no_env)
    × (slug_dir started (codes "a") ≡ peer_dir (layout_of no_env) (codes "a"))
    × (slug_dir started (codes "a") ≡ socket_dir no_env (codes "a"))
one_root_example = one_root no_env started (codes "a") started_lem

abbrev url : Text
url = url_of (codes "https") (codes "h") (codes "o" ∷ []) (codes "r.git")

r_IsSegment : IsSegment (codes "r.git")
unfolding codes is_whitespace
r_IsSegment = record { not_empty = λ e. cc; no_separator = refl; no_space = refl }

no_space : any is_whitespace url ≡ false
unfolding codes is_whitespace url_of path_of
no_space = refl

parsers_agree_url_example :
    (parse_slug url ≡ non_empty (ServerSlug.strip_git (codes "r.git")))
    × (parse_origin_url url ≡ non_empty (ServerSlug.strip_git (codes "r.git")))
unfolding codes path_of
parsers_agree_url_example =
    parsers_agree_url (codes "https") (codes "h") (codes "o" ∷ []) (codes "r.git") refl refl
      r_IsSegment refl no_space

trailing_slash_differs_example :
    (parse_slug (url ++ codes "/") ≡ non_empty (ServerSlug.strip_git (codes "r.git")))
    × (parse_origin_url (url ++ codes "/") ≡ none)
unfolding codes path_of
trailing_slash_differs_example =
    trailing_slash_differs (codes "https") (codes "h") (codes "o" ∷ []) (codes "r.git") refl refl
      r_IsSegment refl no_space
