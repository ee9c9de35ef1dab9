-- ===== src/Lib.antt =====
-- zzrpc: remote procedure calls from a Rust trait, over any message transport.
--
-- The program. The derive macro (zzrpc-derive/src/lib.rs) turns a trait into a consumer, which calls
-- its methods, and a producer, which implements them. The crate zzrpc has the messages, the request
-- futures and the configuration. A call makes a request future (zzrpc/src/consumer/value.rs or
-- stream.rs) with a new id; its first poll sends the request on the channel of its method. The task
-- of the consumer takes it from there, sends it through the transport and keeps the sender of the
-- result in a table of its method, under the id. The main task of the producer spawns a task for each
-- request and keeps a sender to abort it; the replies go to a further task that hands them over to
-- the transport; the consumer finds the sender of the result by method and id.
--
-- The files.
--   Prelude             shared names, words of 64 bits, and tables for `HashMap<usize, V>`
--   Rpc                 zzrpc/src/lib.rs: errors, shutdown types, callbacks; Rpc/Timeout: `Timeout`
--   Message             the messages of zzrpc/src/consumer/mod.rs and zzrpc/src/producer.rs
--   Consumer            the task of the generated consumer (`consumer_state`, `impl_consumer_state`
--                       and `impl_consume` of zzrpc-derive/src/lib.rs). State: `ConsumerState`.
--                       Handle: `handle_message`, `idle`, `shutdown`. Take: the arm of a request.
--                       Loop: `step` is one round of `select!`, `run` the loop. Config: the
--                       `Configuration` of zzrpc/src/consumer/mod.rs and its defaults. Dropped: the
--                       handle `Consumer` and its drop. The others are proofs.
--   Client              the futures of the caller. Channels: what they use of the crate `futures`.
--                       Value: `ValueRequest`. Stream: `StreamRequest`; Stream/Items: `Stream`.
--                       Aborter: `Aborter` and the methods `aborter`, with the shared cell as a store.
--                       Futures: what value and stream requests share. Sending: what a first poll
--                       puts on the channel of its method, over channels that record it.
--   Producer            `impl_produce` of zzrpc-derive/src/lib.rs. Loop: the main task. Task: the
--                       task of a request. Forwarder: the task that sends the replies. Config: the
--                       `Configuration` of zzrpc/src/producer.rs and its defaults.
--   Derive              what the macro `api` of zzrpc-derive/src/lib.rs takes from a trait and
--                       generates from it: signatures, variants, fields; its panics. Fields: the
--                       structs of the consumer and each use of their fields. Serving: the arms of
--                       the producer, and how the arguments of a call get there
--   Link                the producer's tasks and the consumer's loop together, and both with their
--                       default configurations
--   System              the whole program as a step relation: calls, request futures, channels, both
--                       tasks, the tasks of the requests and the transport, each taking its steps in
--                       any order. Counts: where a request is. Log: the history of a run, with the
--                       calls, the senders that their first polls made and the values that their
--                       tasks gave. Order: the items that the consumer has received, beside those
--                       that the task gave. The others are proofs.
--   Tests               concrete runs
--
-- How code becomes definitions. A task is a function of the sequence of its events; an event is the
-- arm of `select!` that was taken, with what the channel, transport or future gave. So every order
-- in which the arms can be taken is some sequence, and the theorems hold for all of them. What a task
-- calls outside (channels, the transport, spawned tasks, the timer) is a list of effects in the order
-- of the calls. A oneshot sender that goes out of scope unused is an effect as well, because the
-- receiver learns of it. The macro generates one table and one match arm for each method; the model
-- has a list of tables, and a method is its position in the trait. All methods share one type of
-- requests and one of values. An end of a channel is the number of the channel.
--
-- The whole program. A state of System has the futures that were not polled, the channels of the
-- methods (one list, of which each method reads its own entries in order), the state of each task,
-- and the messages on their way. A step is a call, a first poll, an abort, a round of one of the
-- tasks, the end of a task, or the sending of a reply. Its rounds are those of Consumer and Producer,
-- and what a first poll sends is what `poll` of Client sends.
-- The model allows more than the code: an abort at any time after the call, a task stopped at any
-- time, any value returned, a transport that loses any reply but `Open` and reports each lost request.
-- A stream that was closed unopened because `Open` was lost is the subject of Consumer/Leak. Calls
-- are below 2^64, so that ids do not come again.
--
-- Numbers. `pending` is a `usize` of 64 bits that wraps, as in a release build; theorems that need it
-- not to wrap say so. The loops are by recursion on the events, without fuel. The one
-- bound is the number of polls of a caller that reads a stream: one more than the items is enough.
--
-- Parameters. The transport gives its results as part of the events. The channels of the request
-- futures are a record of operations on a world that is not looked into; where a law is needed it
-- is a named hypothesis, documented for `futures`. The clock and the sleep of `Timeout` likewise.
-- The callbacks of a configuration are functions that carry a state. System has the channels and
-- the transport as lists in the order of sending, and the counter of ids as a number that starts
-- at 0, as these crates document them; a counter or a list is all that its steps use of them. The
-- types in a syntax tree are those of the crate syn; of the rest of a tree the model has what the
-- source looks at. `to_case` of the crate convert_case is two functions on names; a theorem that needs
-- the names that it gives to be different says so.
--
-- Generated code. A name that the macro makes with `format_ident!` is a text, and a use of a field
-- is the text that stands in the code; a typing rule of Rust finds the field with that name. So the
-- theorems on Derive/Fields and Derive/Serving are about names, and would fail for a misspelt one.
--
-- Not modelled: the parsing and quoting of tokens by the derive macro and its derive `Produce`,
-- wakers and task scheduling, the choice that `select!` makes between ready arms, `Display`, the
-- example, and panics of the methods themselves.
pub mod Prelude
pub mod Rpc
pub mod Message
pub mod Consumer
pub mod Client
pub mod Producer
pub mod Derive
pub mod Link
pub mod System
mod Tests
