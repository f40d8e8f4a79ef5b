-- ===== src/Lib.antt =====
-- crossbridge: a supervisor that introduces the servers of repositories to one another, one server
-- per repository, and a command-line client, which carry issues and answers between repositories.
--
-- A server registers with the supervisor over the register socket, under a slug and a group, and is
-- told of the peers that its group has, of those that join and of those that leave. For each peer it
-- puts up a socket in that peer's directory; the peer's client finds it there, and sends a submit or
-- an answer, which the server applies to its crosslink database.
--
-- Prelude            shared names: tests, lists, results, text, maps, paths and a file system as
--                    data. Numbers are native; a text is the list of its code points; a map is an
--                    association list, whose order stands for Rust's unspecified order.
-- Protocol           crossbridge-protocol/src/lib.rs: the messages; Protocol.Roots the environment
--                    variables; Protocol.Framing framing.rs, with the codec and the streams as
--                    parameters, and its proofs in RoundTrip and Limits.
-- Supervisor         crossbridge-supervisor/src/lib.rs: State, handle_registration (in the parts
--                    reject, acknowledge, enroll), handle_departure (leave, depart). What the system
--                    refuses during an event is its parameter Faults; messages delivered are a log.
--                    Tasks holds the readers of a connection, as the events that they send.
--                    Schedule is the event loop as a step relation, for any order of connections,
--                    ends of streams and failures, and drain the loop over the events alone; Views
--                    what a server makes of its messages; Registry an abstract registry, run on what
--                    the steps ask of it, which the tables implement; Startup run up to its loop, and main.rs.
-- Crosslink          crosslink's Database, which the programs call: an interface, and IsLawful, what
--                    they rely on. Tests.Memory is a database that is lawful in this sense.
-- Server             crossbridge-server/src: Handler (handler.rs), Slug (slug.rs), Paths (paths.rs),
--                    Listeners (listeners.rs), Supervisor (supervisor.rs), Attachment
--                    (attachment.rs), Session and Run (run.rs, main.rs).
-- Client             crossbridge-client/src: Run and Commands (main.rs, lib.rs), Labels, Peers, Slug.
-- Remote             what git and jj print about remotes, a parameter of both Slug modules.
-- Naming, Topology   the programs side by side: the two URL parsers, and the paths of the sockets.
-- Handshake          the supervisor's answer to a registration, and the server that reads it.
-- Presence           the supervisor's messages to a server, and the server's listeners.
-- Exchange           two instances, each with its client, its server and its database: a submit that
--                    one client sends to the other's server, its repetition, and the answer on the way
--                    back (Returns); Wire is the connection, with both programs at its ends.
-- Tests              the theorems at concrete inputs.
--
-- An error of anyhow is its text with the contexts before it, as `{:#}` prints it. The client's
-- root_above goes up a path on fuel, two more than the path has components, which is more than the
-- directories above it (Client.Commands.Root); decimal has as fuel the number that it prints and one,
-- more than it has digits. The retry loop of the server is a function of the outcomes of its attempts.
-- The connection counter wraps at 2^64, and the theorems on reachable states hold up to there.
-- The rounds of drain are not bounded beforehand: that enough of them empty the queue is proved.
--
-- The files are a table of paths; a path with something below it is a directory for remove_dir_all,
-- which refuses a plain file. What else the system refuses is a parameter.
--
-- Not modelled: logging, argument parsing; symbolic links and permissions of the file system;
-- the listeners' channel (their accept loop is modelled by the connections it passes on).
pub mod Prelude
pub mod Protocol
pub mod Supervisor
pub mod Crosslink
pub mod Server
pub mod Client
pub mod Remote
pub mod Naming
pub mod Topology
pub mod Presence
pub mod Handshake
pub mod Exchange
pub mod Tests
