-- ===== src/Supervisor.antt =====
-- crossbridge-supervisor/src/lib.rs: the state of the supervisor and its event handler.
-- A stream is a number; what the supervisor delivers is a log, the newest message first.
-- What the system refuses during one event (a write, a directory) is a parameter of the event.
pub mod Socket
pub mod Delivery
pub mod Members
pub mod Registration
pub mod Departure
pub mod Invariant
pub mod Directories
pub mod Views
pub mod Schedule
pub mod Tasks
pub mod Startup
pub mod Registry
use Prim.Native.Nat.{◌^◌, ◌%◌}
use crossbridge.Prelude.{
  ℕ, suc, ◌+◌, Bool, true, false, not, Option, none, some, List, [], ◌∷◌, ◌++◌, map, filter,
  is_empty, if◌then◌else◌, ◌==◌, nat_has_eq, Result, ok, err,
}
use crossbridge.Prelude.Text.{Text, codes, text_has_eq}
use crossbridge.Prelude.HashMap
use crossbridge.Prelude.HashMap.{HashMap}
use crossbridge.Prelude.FilePath.{FilePath, join, of_text, path_has_eq}
use crossbridge.Prelude.FileSystem.{FileSystem, create_dir_all, remove_dir_all}
use crossbridge.Protocol.{
  Error, IoError, other, Register, RegisterResponse, SupervisorMessage, register_response,
  notification, ack, nack, peer_joined, peer_left,
}

abbrev pub ConnId : Type 0
ConnId = ℕ

abbrev pub StreamId : Type 0
StreamId = ℕ

-- `reader`, the handle of the watcher task, is the entry of `watchers` under the connection's id.
pub record ConnRecord : Type 0 where
  pub slug : Text
  pub group : Text
  pub write_half : StreamId

pub data Event : Type 0 where
  registered : StreamId → Register → Event
  departed : ConnId → Event

abbrev pub Log : Type 0
Log = List (StreamId × SupervisorMessage)

abbrev pub Groups : Type 0
Groups = HashMap Text (HashMap Text ConnId)

-- `events` is the channel behind `events_tx`, oldest first; `watchers` are the running tasks;
-- `sent` and `closed` record what was delivered and which streams were dropped.
pub record State : Type 0 where
  pub base_dir : FilePath
  pub next_id : ConnId
  pub groups : Groups
  pub conns : HashMap ConnId ConnRecord
  pub events : List Event
  pub watchers : List ConnId
  pub fs : FileSystem
  pub sent : Log
  pub closed : List StreamId

pub record Faults : Type 0 where
  pub write : StreamId → SupervisorMessage → Option Error
  pub create_dir : FilePath → Option IoError
  pub remove_dir : FilePath → Option IoError

-- State::new
unfoldable pub init : FilePath → FileSystem → State
init base_dir fs = record {
  base_dir = base_dir;
  next_id = 0;
  groups = [];
  conns = [];
  events = [];
  watchers = [];
  fs = fs;
  sent = [];
  closed = [];
}

abbrev pub u64_mod : ℕ
u64_mod = 2 ^ 64

-- `self.groups.get(&group)`, and the map that it defaults to.
unfoldable pub group_map : Text → Groups → HashMap Text ConnId
group_map group groups = elim (HashMap.get group groups) [ none ↦ [] | some m ↦ m ]

unfoldable pub slug_dir : State → Text → FilePath
slug_dir s slug = join s.base_dir (of_text slug)

-- write_message, as far as the supervisor sees it: the message is in the log, or there is an error.
unfoldable pub write_message : Faults → StreamId → SupervisorMessage → Log → Bool × Log
write_message f stream msg sent = elim (f.write stream msg) [
  | none ↦ (true, (stream, msg) ∷ sent)
  | some e ↦ (false, sent)
]

-- One round of the loop over `peer_ids`; an id with no connection is passed over.
unfoldable pub deliver_one :
    Faults → SupervisorMessage → HashMap ConnId ConnRecord → ConnId → Log → Bool × Log
deliver_one f msg conns peer_id sent = elim (HashMap.get peer_id conns) [
  | none ↦ (true, sent)
  | some rec ↦ write_message f rec.write_half msg sent
]

-- The loop: `failed_peers` and the log.
unfoldable pub deliver :
    Faults → SupervisorMessage → HashMap ConnId ConnRecord → List ConnId → Log → List ConnId × Log
deliver f msg conns [] sent = ([], sent)
deliver f msg conns (peer_id ∷ peer_ids) sent =
    let (reached, sent') = deliver_one f msg conns peer_id sent in
    let (failed, sent'') = deliver f msg conns peer_ids sent' in
    (if reached then failed else peer_id ∷ failed, sent'')

abbrev pub departures : List ConnId → List Event
departures = map departed

-- `std::fs::remove_dir_all` where the error is only logged.
unfoldable pub try_remove_dir : Faults → FilePath → FileSystem → FileSystem
try_remove_dir f p fs = elim (f.remove_dir p) [
  | some e ↦ fs
  | none ↦ elim (remove_dir_all p fs) [ none ↦ fs | some fs' ↦ fs' ]
]

unfoldable pub try_create_dir : Faults → FilePath → FileSystem → Result IoError FileSystem
try_create_dir f p fs = elim (f.create_dir p) [
  | some e ↦ err e
  | none ↦ elim (create_dir_all p fs) [
    | none ↦ err (record { kind = other; message = codes "File exists" })
    | some fs' ↦ ok fs'
  ]
]

abbrev pub duplicate_reason : Register → Text
duplicate_reason reg =
    codes "slug '" ++ reg.slug ++ codes "' already registered in group '" ++ reg.group ++ codes "'"

abbrev pub directory_reason : IoError → Text
directory_reason e = codes "failed to create slug directory: " ++ e.message

-- The two early returns: the stream is dropped, whether or not the Nack went out.
unfoldable pub reject : Faults → StreamId → Text → State → State
reject f stream reason s =
    let (reached, sent') = write_message f stream (register_response (nack reason)) s.sent in
    record s { sent = sent'; closed = stream ∷ s.closed }

-- From `let id = self.next_id` on.
unfoldable pub enroll : Faults → StreamId → Register → State → State
enroll f stream reg s =
    let id = s.next_id in
    let members = group_map reg.group s.groups in
    let joined = notification (peer_joined reg.slug) in
    let (failed, sent') = deliver f joined s.conns (HashMap.values members) s.sent in
    let rec : ConnRecord = record { slug = reg.slug; group = reg.group; write_half = stream } in
    record s {
      next_id = (id + 1) % u64_mod;
      groups = HashMap.insert reg.group (HashMap.insert reg.slug id members) s.groups;
      conns = HashMap.insert id rec s.conns;
      events = s.events ++ departures failed;
      watchers = id ∷ s.watchers;
      sent = sent';
    }

-- From the Ack on.
unfoldable pub acknowledge : Faults → StreamId → Register → State → State
acknowledge f stream reg s =
    let peers = HashMap.keys (group_map reg.group s.groups) in
    let (reached, sent') = write_message f stream (register_response (ack peers)) s.sent in
    if reached then enroll f stream reg (record s { sent = sent' }) else record s {
      fs = try_remove_dir f (slug_dir s reg.slug) s.fs;
      sent = sent';
      closed = stream ∷ s.closed;
    }

unfoldable pub is_registered : State → Text → Text → Bool
is_registered s group slug = HashMap.contains_key slug (group_map group s.groups)

unfoldable pub handle_registration : Faults → StreamId → Register → State → State
handle_registration f stream reg s =
    if is_registered s reg.group reg.slug
    then reject f stream (duplicate_reason reg) s
    else elim (try_create_dir f (slug_dir s reg.slug) s.fs) [
      | err e ↦ reject f stream (directory_reason e) s
      | ok fs' ↦ acknowledge f stream reg (record s { fs = fs' })
    ]

-- `group_map.remove(&slug)`, and the group itself once it is empty.
unfoldable pub leave : Text → Text → Groups → Groups
leave group slug groups = elim (HashMap.get group groups) [
  | none ↦ groups
  | some m ↦
      let m' = HashMap.remove slug m in
      if is_empty m' then HashMap.remove group groups else HashMap.insert group m' groups
]

-- What follows `self.conns.remove(&id)`.
unfoldable pub depart : Faults → ConnId → ConnRecord → State → State
depart f id rec s =
    let groups' = leave rec.group rec.slug s.groups in
    let left = notification (peer_left rec.slug) in
    let members = group_map rec.group groups' in
    let (failed, sent') = deliver f left s.conns (HashMap.values members) s.sent in
    record s {
      groups = groups';
      events = s.events ++ departures failed;
      watchers = filter (λ w. not (w == id)) s.watchers;
      fs = try_remove_dir f (slug_dir s rec.slug) s.fs;
      sent = sent';
      closed = rec.write_half ∷ s.closed;
    }

unfoldable pub handle_departure : Faults → ConnId → State → State
handle_departure f id s = elim (HashMap.get id s.conns) [
  | none ↦ s
  | some rec ↦ depart f id rec (record s { conns = HashMap.remove id s.conns })
]

unfoldable pub handle_event : Faults → Event → State → State
handle_event f (registered stream reg) s = handle_registration f stream reg s
handle_event f (departed id) s = handle_departure f id s
