-- ===== src/Supervisor/Tasks.antt =====
-- crossbridge-supervisor/src/lib.rs: the tasks for a connection, as the events that they send. The
-- steps connect and hang_up of Schedule are a task that sends its event.
use crossbridge.Prelude.{ℕ, zero, suc, ◌≡◌, refl, List, [], ◌∷◌, ◌++◌, All, Result, ok, err}
use crossbridge.Protocol.{Error, IoError, Register}
use crossbridge.Supervisor.{ConnId, StreamId, Event, registered, departed}

-- The outcome of reading the first message is an argument; an error is only logged.
unfoldable pub spawn_registration_reader : StreamId → Result Error Register → List Event
spawn_registration_reader stream (ok register) = registered stream register ∷ []
spawn_registration_reader stream (err e) = []

-- The loop over the reads of the stream, each of which gives a number of bytes or an error. As far
-- as the reads go, the task may still be waiting.
unfoldable pub spawn_eof_watcher : ConnId → List (Result IoError ℕ) → List Event
spawn_eof_watcher id [] = []
spawn_eof_watcher id (ok zero ∷ reads) = departed id ∷ []
spawn_eof_watcher id (ok (suc n) ∷ reads) = spawn_eof_watcher id reads
spawn_eof_watcher id (err e ∷ reads) = departed id ∷ []

-- A read that gives data, and one that ends the stream.
unfoldable pub IsData : Result IoError ℕ → Type 0
IsData (ok zero) = ⊥
IsData (ok (suc n)) = Unit
IsData (err e) = ⊥

unfoldable pub IsEnd : Result IoError ℕ → Type 0
IsEnd (ok zero) = Unit
IsEnd (ok (suc n)) = ⊥
IsEnd (err e) = Unit

-- Whatever data a registered server sends, its departure is sent once, at the end of the stream or
-- at the first error.
pub spawn_eof_watcher_lem :
    (id : ConnId) (data_reads : List (Result IoError ℕ)) (last : Result IoError ℕ)
    (more : List (Result IoError ℕ))
    → All IsData data_reads
    → IsEnd last
    → spawn_eof_watcher id (data_reads ++ last ∷ more) ≡ departed id ∷ []
unfolding spawn_eof_watcher IsData IsEnd
spawn_eof_watcher_lem id [] (ok zero) more a e = refl
spawn_eof_watcher_lem id [] (ok (suc n)) more a e = absurd e
spawn_eof_watcher_lem id [] (err x) more a e = refl
spawn_eof_watcher_lem id (ok zero ∷ reads) last more a e = absurd a.0
spawn_eof_watcher_lem id (ok (suc n) ∷ reads) last more a e =
    spawn_eof_watcher_lem id reads last more a.1 e
spawn_eof_watcher_lem id (err x ∷ reads) last more a e = absurd a.0
