-- ===== src/Protocol.antt =====
-- crossbridge-protocol/src/lib.rs: the messages and the errors of the wire protocol.
pub mod Framing
pub mod Roots
use crossbridge.Prelude.{ℕ, ◌*◌, List, ◌++◌}
use crossbridge.Prelude.Text.{Text, codes}
use crossbridge.Prelude.Decimal.{ℤ, decimal}

-- `std::io::Error`: its kind, as far as the program asks for it, and its text.
pub data ErrorKind : Type 0 where
  not_found unexpected_eof other : ErrorKind

pub record IoError : Type 0 where
  pub kind : ErrorKind
  pub message : Text

-- `Postcard` holds the text of the codec's error.
pub data Error : Type 0 where
  io : IoError → Error
  postcard : Text → Error
  frame_too_large : ℕ → ℕ → Error

unfoldable pub display_error : Error → Text
unfolding decimal codes
display_error (io e) = codes "io error: " ++ e.message
display_error (postcard e) = codes "postcard error: " ++ e
display_error (frame_too_large size max) =
    codes "frame too large: " ++ decimal size ++ codes " bytes (max " ++ decimal max ++ codes ")"

pub record Register : Type 0 where
  pub slug : Text
  pub group : Text

pub data RegisterResponse : Type 0 where
  ack : List Text → RegisterResponse
  nack : Text → RegisterResponse

pub data Notification : Type 0 where
  peer_joined : Text → Notification
  peer_left : Text → Notification

pub data SupervisorMessage : Type 0 where
  register_response : RegisterResponse → SupervisorMessage
  notification : Notification → SupervisorMessage

pub record Attachment : Type 0 where
  pub filename : Text
  pub bytes : List ℕ

pub record AnswerComment : Type 0 where
  pub content : Text
  pub kind : Text

pub record SubmitIssue : Type 0 where
  pub title : Text
  pub body : Text
  pub labels : List Text
  pub source_slug : Text
  pub source_uuid : Text
  pub attachments : List Attachment

pub record SubmitAnswer : Type 0 where
  pub source_uuid : Text
  pub comments : List AnswerComment
  pub attachments : List Attachment

pub data ClientRequest : Type 0 where
  submit : SubmitIssue → ClientRequest
  answer : SubmitAnswer → ClientRequest

pub data ServerResponse : Type 0 where
  done : ℤ → ServerResponse
  failed : Text → ServerResponse

-- MAX_FRAME_SIZE: 16 MiB.
abbrev pub max_frame_size : ℕ
max_frame_size = 16 * 1024 * 1024
