-- ===== src/Supervisor/Schedule.antt =====
-- crossbridge-supervisor/src/lib.rs, run: the tasks and the event loop as a step relation. A step is
-- a connection whose Register was read, the end of a connection's stream, or one event handled, with
-- whatever faults. Connections whose Register cannot be read, and data that a server sends after
-- its Register, change nothing.
mod Streams
pub mod Reachable
pub mod Ends
pub mod Settles
pub mod Sessions
pub use Streams.{Once, IsNew, IsSeparate}
use crossbridge.Prelude.{ℕ, zero, suc, ◌≡◌, List, [], ◌∷◌, ◌++◌, In, not, filter, ◌==◌, nat_has_eq}
use crossbridge.Prelude.FilePath.{FilePath}
use crossbridge.Prelude.FileSystem.{FileSystem}
use crossbridge.Protocol.{Register}
use crossbridge.Supervisor.{
  ConnId, StreamId, Event, registered, departed, State, Faults, init, handle_event,
}

pub data Step (s : State) : State → Type 0 where
  -- spawn_registration_reader; the kernel hands out a stream that is not in use.
  connect :
      (stream : StreamId) (reg : Register)
      → IsNew stream s
      → Step s (record s { events = s.events ++ registered stream reg ∷ [] })
  -- spawn_eof_watcher, which ends with the event that it sends.
  hang_up :
      (id : ConnId)
      → In id s.watchers
      → Step s (record s {
        events = s.events ++ departed id ∷ [];
        watchers = filter (λ w. not (w == id)) s.watchers;
      })
  handle :
      (f : Faults) (e : Event) (es : List Event)
      → s.events ≡ e ∷ es
      → Step s (handle_event f e (record s { events = es }))

-- What a run over a prepared base directory can come to in `n` steps.
pub data Reach (base : FilePath) (fs : FileSystem) : ℕ → State → Type 0 where
  here : Reach base fs zero (init base fs)
  next : {n : ℕ} {s t : State} → Reach base fs n s → Step s t → Reach base fs (suc n) t

-- The loop of run over the events alone: `k` of them are handled, oldest first, each with its faults.
unfoldable pub drain : (ℕ → Faults) → ℕ → State → State
drain f zero s = s
drain f (suc k) s = elim s.events [
  | [] ↦ s
  | e ∷ es ↦ drain (λ i. f (suc i)) k (handle_event (f 0) e (record s { events = es }))
]
