-- ===== src/Lib.antt =====
-- DIY-Redis: a Redis server in TypeScript (app/).
--
-- A connection's bytes are cut into commands (app/DataParser.ts) by the loop of app/Server.ts, which
-- hands each to app/SOLIDDispatcher.ts. The dispatcher queues it, refuses it, or runs the command's object from
-- a map; the commands change the store (app/store/RedisStore.ts), wake clients that wait for a list
-- (app/services/BlockingManager.ts), and write commands go on to the replicas
-- (app/replication/ReplicationManager.ts).
--
-- The files:
--   Base: numbers, lists, Boolean tests, integers, chains of optional results.
--   Js: what the program uses of JavaScript: texts, numbers, UTF-8, Map, Date, JSON.
--   Resp: app/DataParser.ts (Parse) and the reply writers of app/utilities.ts (Encode); RoundTrip, Rounds and
--     Framing have the theorems. parseNextCommand is parse_next_command, getPayload is get_payload.
--   Store: app/store/RedisStore.ts and the value types of app/types.ts. The methods set, get, delete and
--     cleanExpiredKeys are set_value, get_value, delete_key and clean_expired_keys.
--   Strings: Get, Set, Del, Exists, Expire, Incr, Type and Keys of app/commands/simpleCommands, one
--     function for each execute method, from the time, the arguments and the store to the reply and
--     the store.
--   World: the state that commands share, app/replication/ReplicationManager.ts, and the listener of WaitCommand.ts
--     (Listeners).
--   Streams: app/commands/streamCommands, app/commands/StreamEventManager.ts, and the functions of app/utilities.ts
--     on ids (Ids) and entries (Entries). A client that XREAD blocks is a Reader of the world; Numerals and Parts
--     have the lemmas on ids, Added and Kept those on what XADD's listeners keep, Order, Ranges, Shown, Waking and Odd the
--     theorems.
--   Rdb: app/persistence/RDBWriter.ts (Writer), app/persistence/RDBParser.ts (Reader), and
--     SaveCommand.ts and loadRDB of app/Server.ts (Disk), with the file as a value of the world; Strings, Pairs,
--     Leaves, Ends and RoundTrip have the theorems.
--   Replica: app/replication/MasterConnectionHandler.ts and handshake.ts (Defs), and of the master's side
--     PsyncCommand.ts, ReplconfCommand.ts and requestAcks (Master). What connectToMaster of app/Server.ts does with
--     the handler's events is the dispatcher without a connection (Converging). Handshake, Following, Agreement and Acks
--     have the other theorems.
--   Blocking: app/services/BlockingManager.ts; a promise that waits is the number of its waiter, and the
--     record of the world lists the promises that were resolved.
--   Lists: LLen, LPop, LRange, LPush and RPush of app/commands/simpleCommands.
--   Dispatch: app/SOLIDDispatcher.ts over any map of commands, a command being a function of one of the
--     four types of app/commands/ICommand.ts.
--   Transaction: MultiCommand, DiscardCommand and ExecCommand of app/commands/statefulCommands.ts. The
--     map in which EXEC looks commands up is its argument, `inner` in the theorems; in the program it is the
--     dispatcher's.
--   Blpop: app/commands/statefulCommands.ts/BLPopCommand.ts.
--   Channels: app/services/SubscriptionManager.ts, SubscribeCommand and UnsubscribeCommand of
--     app/commands/replicationCommands, PublisCommand.ts and PingCommand.ts; Sessions has the steps of
--     several connections.
--   Wait: app/commands/orchestrationCommands/WaitCommand.ts. The world holds the listeners for "ack" and the answers;
--     Listening and Counting have the lemmas.
--   Settings: app/replication/serverSetup.ts, and EchoCommand, InfoCommand and ConfigCommand of
--     app/commands/simpleCommands.
--   Registry: app/registry/CommandRegistry.ts, and EXEC in the map (Defs, Depth, Entries); an EXEC that waits
--     (Pausing), and WAIT through the dispatcher (Waiting).
--   Server: app/Server.ts: the handler of a connection's data event (Defs), the connections and the handlers that wait
--     (Connections), one event after another (Events), and start (Start). Pipeline, Progress, Twice and Others have
--     theorems.
--   Invariants: a predicate on the world that every command keeps is kept by EXEC, by the dispatcher (Dispatched) and
--     by the running server (Reached).
--   Kinds: the first such predicate, that the values in the store have the form that their type says; one module for
--     each group of commands. Waiters: the second, on the queues of the waiters; the methods of BlockingManager
--     keep it by Blocking.Keeping.
--   Tests: the theorems at concrete inputs.
--
-- What stands for what. A text is the list of its UTF-16 units, a Buffer the list of its bytes, and
-- toString and write are UTF-8 as Node has it, with the replacement character for what is malformed.
-- toLowerCase and toUpperCase change ASCII letters only, and trim, split and parseInt are those of the
-- language. parseInt gives an integer or none, for NaN; without a radix it reads 0x too (Js.Radix).
-- Numbers are exact, as a double's are within 2 ^ 53; INCR, which computes with what a client stored, has no
-- outcome beyond that. A Map is an association list in the order of insertion. A Date is a number of milliseconds
-- within the bound of the language, or the invalid date. Date.now() is an argument or the world's
-- clock and does not move while a command runs. A value that the program keeps as JSON text is
-- represented by what was stringified, and value_text is the text. An await that does not end at once
-- is a value (suspended, waiting, blocked) that carries the number of the waiter. An EXEC that waits is a Paused
-- entry of the world (World.Executions), and continue_exec goes on with it when the promise is resolved. An exception is a value as
-- well: thrown, raised, failed, or none where a writer throws.
--
-- Fuel. The loop of the server's data event takes the number of its rounds. For commands as a client writes
-- them, one round more than there are commands is enough (serve-requests); there are other bytes for
-- which no number is (serve-stuck). The replica's loop takes its rounds too, and again one more than
-- there are commands is enough. The two loops of the RDB reader have as many rounds as there are bytes,
-- and one more, which is always enough (parse_rdb_ends). All other recursion is structural.
--
-- The registry. EXEC holds the map that holds EXEC. The map of the model follows that reference to a depth, and
-- the server's is the one of depth 1; Depth has the comparison of the depths. The map takes
-- an Engine as an argument: the message of a TypeError, and what a command on streams comes to where its outcome is
-- `outside`, that is where it meets a value that is no stream, or a part of an id that is no row of digits or more than
-- 2 ^ 53 - 1, and what INCR comes to on a number that a double does not hold exactly. The two invariants ask of it
-- that it keeps them.
--
-- Not modelled: logging, sockets, errors of listen, and the process.
pub mod Base
pub mod Js
pub mod Resp
pub mod Store
pub mod Strings
pub mod World
pub mod Blocking
pub mod Lists
pub mod Dispatch
pub mod Channels
pub mod Rdb
pub mod Replica
pub mod Streams
pub mod Wait
pub mod Settings
pub mod Registry
pub mod Invariants
pub mod Kinds
pub mod Waiters
pub mod Blpop
pub mod Transaction
pub mod Server
pub mod Tests
