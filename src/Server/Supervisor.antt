-- ===== src/Server/Supervisor.antt =====
-- crossbridge-server/src/supervisor.rs: the server's connection to the supervisor.
pub mod Backoff
use crossbridge.Prelude.{
  ℕ, zero, suc, ◌+◌, ◌*◌, min, Bool, true, false, Option, none, some, List, [], ◌∷◌, ◌++◌,
  if◌then◌else◌, Result, ok, err, map_err,
}
use crossbridge.Prelude.Text.{Text, codes, contains_text, join}
use crossbridge.Prelude.FilePath
use crossbridge.Prelude.FilePath.{FilePath, of_text, parent}
use crossbridge.Protocol.{
  Error, io, postcard, frame_too_large, IoError, ErrorKind, not_found, unexpected_eof, other,
  display_error, Register, RegisterResponse, ack, nack, Notification, peer_joined, peer_left,
  SupervisorMessage, register_response, notification,
}
use crossbridge.Protocol.Framing.{Codec, Read, Write, read_message, write_message}
use crossbridge.Protocol.Roots.{default_socket_root_text}

-- Seconds.
abbrev pub initial_backoff : ℕ
initial_backoff = 1

abbrev pub max_backoff : ℕ
max_backoff = 60

pub record Registration (S : Type 0) : Type 0 where
  pub stream : S
  pub peers : List Text

-- The text that `{:?}` prints for a notification or a response is an argument: only messages have it.
module _ {S : Type 0} (r : Read S) (w : Write S) (registers : Codec Register)
    (messages : Codec SupervisorMessage) (debug : SupervisorMessage → Text) where
  -- The match on the first message.
  unfoldable pub first_message : S → SupervisorMessage → Result Text (Registration S)
  first_message s (register_response (ack peers)) = ok (record { stream = s; peers = peers })
  first_message s (register_response (nack reason)) =
      err (codes "supervisor rejected registration: " ++ reason)
  first_message s (notification n) = err (
      codes "expected RegisterResponse from supervisor, got Notification: "
      ++ debug (notification n))

  -- The connection, or the error of connecting, is an argument.
  unfoldable pub connect_and_register :
      Result Text S → FilePath → Text → Text → Result Text (Registration S)
  connect_and_register (err e) path slug group =
      err (codes "connecting to supervisor at " ++ FilePath.display path ++ codes ": " ++ e)
  connect_and_register (ok s) path slug group =
      let (sent, s1) = write_message w registers (record { slug = slug; group = group }) s in
      let (first, s2) = read_message r messages s1 in
      elim sent [
        | err e ↦ err (codes "sending Register frame: " ++ display_error e)
        | ok u ↦ elim first [
          | err e ↦ err (codes "reading RegisterResponse frame: " ++ display_error e)
          | ok m ↦ first_message s2 m
        ]
      ]

  unfoldable pub read_notification : S → Result Text (Option Notification) × S
  read_notification s =
      let (message, s') = read_message r messages s in
      (
        elim message [
          | ok (notification n) ↦ ok (some n)
          | ok (register_response m) ↦ err (
              codes "supervisor sent unexpected RegisterResponse mid-stream: "
              ++ debug (register_response m))
          | err (io e) ↦ elim e.kind [
            | unexpected_eof ↦ ok none
            | not_found ↦ err (codes "reading notification: " ++ display_error (io e))
            | other ↦ err (codes "reading notification: " ++ display_error (io e))
          ]
          | err (postcard e) ↦ err (codes "reading notification: " ++ display_error (postcard e))
          | err (frame_too_large n m) ↦
              err (codes "reading notification: " ++ display_error (frame_too_large n m))
        ],
        s',
      )

-- `(backoff * 2).min(MAX_BACKOFF)`
unfoldable pub next_backoff : ℕ → ℕ
next_backoff backoff = min (backoff * 2) max_backoff

-- What the loop has done: the seconds that it slept, and its end, if it came to one.
abbrev pub Attempts : Type 0 → Type 0
Attempts A = List ℕ × Option (Result Text A)

unfoldable pub is_rejection : Text → Bool
is_rejection message = contains_text (codes "supervisor rejected registration") message

-- The loop of connect_and_register_with_backoff over the outcomes of its attempts, of which there
-- may be any number: it goes on for as long as they last.
unfoldable pub retry : {A : Type 0} → ℕ → List (Result Text A) → Attempts A
retry backoff [] = ([], none)
retry backoff (outcome ∷ outcomes) =
    let (sleeps, end) = retry (next_backoff backoff) outcomes in
    elim outcome [
      | ok reg ↦ ([], some (ok reg))
      | err e ↦ if is_rejection e then ([], some (err e)) else (backoff ∷ sleeps, end)
    ]

unfoldable pub connect_and_register_with_backoff : {A : Type 0} → List (Result Text A) → Attempts A
connect_and_register_with_backoff outcomes = retry initial_backoff outcomes

unfoldable pub runtime_root_from_socket : FilePath → FilePath
runtime_root_from_socket register_socket = elim (parent register_socket) [
  | none ↦ of_text default_socket_root_text
  | some p ↦ p
]
