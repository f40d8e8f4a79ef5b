-- ===== src/Protocol/Framing.antt =====
-- crossbridge-protocol/src/framing.rs: a frame is a 4-byte big-endian length and a payload.
-- The postcard codec is a parameter, and so are the traits `Read` and `Write` of the streams.
pub mod RoundTrip
pub mod Limits
use crossbridge.Prelude.{
  ℕ, ◌+◌, ◌*◌, ◌/◌, ◌%◌, ◌^◌, List, [], ◌∷◌, ◌++◌, length, take, drop, ltb, if◌then◌else◌, Result,
  ok, err, map_err,
}
use crossbridge.Prelude.Text.{Text, codes}
use crossbridge.Prelude.Action.{Action, lift, pure, map_error, ◌>>=◌, ◌>>◌}
use crossbridge.Protocol.{
  Error, io, postcard, frame_too_large, IoError, unexpected_eof, max_frame_size,
}

abbrev pub Bytes : Type 0
Bytes = List ℕ

-- `postcard::to_stdvec` and `postcard::from_bytes` at one message type.
pub record Codec (T : Type 0) : Type 0 where
  pub to_stdvec : T → Result Text Bytes
  pub from_bytes : Bytes → Result Text T

-- `write_all` of `Write` and `read_exact` of `Read`, and of their asynchronous versions.
pub record Write (W : Type 0) : Type 0 where
  pub write_all : Bytes → Action W IoError Unit

pub record Read (R : Type 0) : Type 0 where
  pub read_exact : ℕ → Action R IoError Bytes

-- `u32::to_be_bytes` and `u32::from_be_bytes`.
unfoldable pub to_be_bytes : ℕ → Bytes
to_be_bytes n = (n / 2 ^ 24 % 256) ∷ (n / 2 ^ 16 % 256) ∷ (n / 2 ^ 8 % 256) ∷ (n % 256) ∷ []

-- The reader hands over four bytes.
unfoldable pub from_be_bytes : Bytes → ℕ
from_be_bytes (a ∷ b ∷ c ∷ d ∷ []) = a * 2 ^ 24 + b * 2 ^ 16 + c * 2 ^ 8 + d
from_be_bytes _ = 0

unfoldable pub encode : {T : Type 0} → Codec T → T → Result Error Bytes
encode codec msg = elim (codec.to_stdvec msg) [
  | err e ↦ err (postcard e)
  | ok payload ↦
      if ltb max_frame_size (length payload)
      then err (frame_too_large (length payload) max_frame_size)
      else ok payload
]

unfoldable pub check_incoming_len : ℕ → Result Error Unit
check_incoming_len len =
    if ltb max_frame_size len then err (frame_too_large len max_frame_size) else ok tt

module _ {W T : Type 0} (w : Write W) (codec : Codec T) where
  unfoldable pub write_message_sync : T → Action W Error Unit
  write_message_sync msg = do
    payload ← lift (encode codec msg)
    let header = to_be_bytes (length payload % 2 ^ 32)
    map_error io (w.write_all header)
    map_error io (w.write_all payload)
    pure tt

  -- The same body with `.await`.
  unfoldable pub write_message : T → Action W Error Unit
  write_message msg = do
    payload ← lift (encode codec msg)
    let header = to_be_bytes (length payload % 2 ^ 32)
    map_error io (w.write_all header)
    map_error io (w.write_all payload)
    pure tt

module _ {R T : Type 0} (r : Read R) (codec : Codec T) where
  unfoldable pub read_message_sync : Action R Error T
  read_message_sync = do
    len_bytes ← map_error io (r.read_exact 4)
    let len = from_be_bytes len_bytes
    lift (check_incoming_len len)
    buf ← map_error io (r.read_exact len)
    lift (map_err postcard (codec.from_bytes buf))

  unfoldable pub read_message : Action R Error T
  read_message = do
    len_bytes ← map_error io (r.read_exact 4)
    let len = from_be_bytes len_bytes
    lift (check_incoming_len len)
    buf ← map_error io (r.read_exact len)
    lift (map_err postcard (codec.from_bytes buf))

-- `Vec<u8>` as a writer and `&[u8]` as a reader.
abbrev pub vec_write : Write Bytes
vec_write = record { write_all = λ buf out. (ok tt, out ++ buf) }

abbrev pub eof : IoError
eof = record { kind = unexpected_eof; message = codes "failed to fill whole buffer" }

unfoldable pub slice_read_exact : ℕ → Action Bytes IoError Bytes
slice_read_exact n s = if ltb (length s) n then (err eof, []) else (ok (take n s), drop n s)

abbrev pub slice_read : Read Bytes
slice_read = record { read_exact = slice_read_exact }
