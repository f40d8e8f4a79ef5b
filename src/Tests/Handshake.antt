-- ===== src/Tests/Handshake.antt =====
-- A server that registers beside another one, and one whose slug is taken.
use crossbridge.Prelude.{zero, suc, ◌≡◌, ◌++◌, refl, true, some, [], ◌∷◌, Result, ok, err, arith}
use crossbridge.Prelude.Text.{Text, codes, text_eq, text_has_eq, split}
use crossbridge.Prelude.HashMap
use crossbridge.Prelude.FilePath.{join, of_text, path_eq}
use crossbridge.Prelude.FileSystem.{create_dir_all, make_dirs, exists, ancestors, heads, is_file}
use crossbridge.Protocol.{Register, SupervisorMessage, register_response, notification, ack, nack}
use crossbridge.Protocol.Framing.{Bytes, Codec, encode}
use crossbridge.Protocol.Framing.RoundTrip.{IsFaithful, frame}
use crossbridge.Supervisor.{
  init, handle_event, handle_registration, is_registered, group_map, try_create_dir, slug_dir,
  acknowledge, enroll, write_message, deliver, deliver_one, duplicate_reason,
}
use crossbridge.Server.Supervisor.{connect_and_register_with_backoff}
use crossbridge.Handshake.{attempt, accepted_handshake, rejected_handshake}
use crossbridge.Tests.Supervisor.{base, no_faults, one, two, reg_a, reg_b, b_Accepts}

-- Slugs and groups of one letter.
encode_names : Text → Text → Result Text Bytes
encode_names (a ∷ []) (b ∷ []) = ok (a ∷ b ∷ [])
encode_names _ _ = err (codes "not for this test")

decode_register : Bytes → Result Text Register
decode_register (a ∷ b ∷ []) = ok (record { slug = a ∷ []; group = b ∷ [] })
decode_register _ = err (codes "not a Register")

abbrev registers : Codec Register
registers = record { to_stdvec = λ r. encode_names r.slug r.group; from_bytes = decode_register }

faithful_names :
    (slug group : Text) (payload : Bytes)
    → encode_names slug group ≡ ok payload
    → decode_register payload ≡ ok (record { slug = slug; group = group })
unfolding encode_names decode_register
faithful_names [] group payload h = ground arith
faithful_names (a ∷ []) [] payload h = ground arith
faithful_names (a ∷ []) (b ∷ []) payload h = ground arith
faithful_names (a ∷ []) (b ∷ c ∷ group) payload h = ground arith
faithful_names (a ∷ b ∷ slug) group payload h = ground arith

registers-IsFaithful : IsFaithful registers
registers-IsFaithful = record { decodes = λ r. faithful_names r.slug r.group }

encode_message : SupervisorMessage → Result Text Bytes
encode_message (register_response (nack reason)) = ok (0 ∷ reason)
encode_message (register_response (ack (p ∷ []))) = ok (1 ∷ p)
encode_message _ = err (codes "not for this test")

decode_message : Bytes → Result Text SupervisorMessage
decode_message (zero ∷ reason) = ok (register_response (nack reason))
decode_message (suc zero ∷ p) = ok (register_response (ack (p ∷ [])))
decode_message _ = err (codes "not a message")

abbrev messages : Codec SupervisorMessage
messages = record { to_stdvec = encode_message; from_bytes = decode_message }

faithful_message :
    (m : SupervisorMessage) (payload : Bytes)
    → encode_message m ≡ ok payload
    → decode_message payload ≡ ok m
unfolding encode_message decode_message
faithful_message (register_response (nack reason)) payload h = ground arith
faithful_message (register_response (ack [])) payload h = ground arith
faithful_message (register_response (ack (p ∷ []))) payload h = ground arith
faithful_message (register_response (ack (p ∷ q ∷ ps))) payload h = ground arith
faithful_message (notification n) payload h = ground arith

messages-IsFaithful : IsFaithful messages
messages-IsFaithful = record { decodes = faithful_message }

abbrev debug : SupervisorMessage → Text
debug m = []

b_said : encode registers reg_b ≡ ok (codes "bg")
unfolding encode encode_names codes
b_said = refl

a_said : encode registers reg_a ≡ ok (codes "ag")
unfolding encode encode_names codes
a_said = refl

b_heard :
    encode messages (register_response (ack (HashMap.keys (group_map (codes "g") one.groups))))
    ≡ ok (1 ∷ codes "a")
unfolding encode encode_message init handle_event handle_registration is_registered group_map
    HashMap.contains_key HashMap.get HashMap.insert HashMap.remove try_create_dir slug_dir of_text
    join split create_dir_all make_dirs exists ancestors heads is_file path_eq acknowledge enroll
    write_message deliver deliver_one codes text_eq
b_heard = refl

a_taken : is_registered one (codes "g") (codes "a") ≡ true
unfolding init handle_event handle_registration is_registered group_map HashMap.contains_key
    HashMap.get HashMap.insert HashMap.remove try_create_dir slug_dir of_text join split
    create_dir_all make_dirs exists ancestors heads is_file path_eq acknowledge enroll write_message
    deliver deliver_one codes text_eq
a_taken = refl

a_heard :
    encode messages (register_response (nack (duplicate_reason reg_a)))
    ≡ ok (0 ∷ duplicate_reason reg_a)
unfolding encode encode_message codes
a_heard = refl

accepted_handshake_example :
    attempt registers messages debug base reg_b (frame (1 ∷ codes "a") ++ 9 ∷ [])
    ≡ ok (record {
      stream = (9 ∷ [], frame (codes "bg"));
      peers = HashMap.keys (group_map (codes "g") one.groups);
    })
accepted_handshake_example =
    (accepted_handshake registers messages debug no_faults 4 reg_b one two.fs b_Accepts
      registers-IsFaithful messages-IsFaithful base (codes "bg") (1 ∷ codes "a") (9 ∷ []) b_said
      b_heard).0

rejected_handshake_example :
    connect_and_register_with_backoff
      (attempt registers messages debug base reg_a (frame (0 ∷ duplicate_reason reg_a) ++ []) ∷ [])
    ≡ ([], some (err (codes "supervisor rejected registration: " ++ duplicate_reason reg_a)))
rejected_handshake_example =
    (rejected_handshake registers messages debug no_faults 4 reg_a one a_taken refl
      messages-IsFaithful base (codes "ag") (0 ∷ duplicate_reason reg_a) [] [] a_said a_heard).2
