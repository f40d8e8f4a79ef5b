-- ===== src/Supervisor/Views.antt =====
-- crossbridge-supervisor/src/lib.rs: what a registered server knows of its group from the messages
-- on its stream, whatever fails in between.
pub mod Heard
pub mod Informed
pub mod Departed
pub mod Session
use crossbridge.Prelude.{
  Bool, true, false, not, ◌&&◌, ◌||◌, List, [], ◌∷◌, ◌≡◌, ◌⊎◌, some, if◌then◌else◌, ◌==◌, In,
  contains, nat_has_eq, ℕ,
}
use crossbridge.Prelude.Text.{Text, text_has_eq}
use crossbridge.Prelude.HashMap
use crossbridge.Prelude.HashMap.{HashMap}
use crossbridge.Protocol.{
  SupervisorMessage, register_response, notification, ack, nack, peer_joined, peer_left,
}
use crossbridge.Supervisor.{
  ConnId, StreamId, ConnRecord, Event, departed, Log, State, is_registered,
}

-- Whether a server that believed `known` of a slug takes it for a peer after one more message.
unfoldable pub hear : SupervisorMessage → Text → Bool → Bool
hear (register_response (ack peers)) slug known = contains peers slug
hear (register_response (nack reason)) slug known = known
hear (notification (peer_joined peer)) slug known = peer == slug || known
hear (notification (peer_left peer)) slug known = not (peer == slug) && known

-- Whether the server behind a stream takes a slug for a peer.
pub view : StreamId → Log → Text → Bool
view stream [] slug = false
view stream ((t, msg) ∷ sent) slug =
    let known = view stream sent slug in if t == stream then hear msg slug known else known

-- The peers of a connection: its group without itself.
abbrev pub is_peer : State → ConnRecord → Text → Bool
is_peer s rec slug = is_registered s rec.group slug && not (slug == rec.slug)

abbrev pub Knows : State → ConnRecord → Type 0
Knows s rec = (slug : Text) → view rec.write_half s.sent slug ≡ is_peer s rec slug

-- Every connected server knows its peers, unless its departure is among the events.
abbrev pub IsInformed : List Event → State → Type 0
IsInformed events s =
    (id : ConnId) (rec : ConnRecord)
    → HashMap.get id s.conns ≡ some rec
    → Knows s rec ⊎ In (departed id) events

-- No two connections share a stream.
abbrev pub HasOwnStreams : HashMap ConnId ConnRecord → Type 0
HasOwnStreams conns =
    (i j : ConnId) (rec rec' : ConnRecord)
    → HashMap.get i conns ≡ some rec
    → HashMap.get j conns ≡ some rec'
    → rec.write_half ≡ rec'.write_half
    → i ≡ j

abbrev pub IsUnused : StreamId → HashMap ConnId ConnRecord → Type 0
IsUnused stream conns =
    (id : ConnId) (rec : ConnRecord) → HashMap.get id conns ≡ some rec → rec.write_half ≡ stream → ⊥
