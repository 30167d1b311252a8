-- ===== src/Lib.antt =====
-- A model of getemail and its POP3 client async-pop2.
--
-- The program. async-pop2 is a POP3 client. `Client` (async-pop2/src/lib.rs) keeps the state of the
-- session and has a method for each command; each method sends a `Request` (request.rs, command.rs)
-- through a `PopStream` (stream.rs) and waits for the `Response`. The stream writes requests as
-- lines, puts the command into a `CommandQueue`, reads into a `Buffer` that grows up to a limit, and
-- tries to parse after each read. `sasl.rs` holds the mechanisms of the AUTH command. The crate
-- getemail (src) looks up the servers of the domain of a mailbox, connects over IMAP or else POP3,
-- and collects the messages that a filter takes.
--
-- Files. Base holds shared helpers: lists, bytes, decimal numbers and `Exec`, a state and error monad
-- whose outcomes are a value, an error, a panic, or `stuck` when the fuel is used up.
--   Pop2/Error, Types, Response   async-pop2/src/error.rs, response/types, response/*.rs
--   Pop2/Env                      the runtime, the crates bytes and base64
--   Pop2/Command, Request         command.rs, request.rs
--   Pop2/Queue, Buffer, Stream    stream.rs: CommandQueue, Buffer, PopStream
--   Pop2/Stream/Read              poll_next and read_response
--   Pop2/Nom, Nom/Laws            the parsers of the crate nom and what its documentation says of them
--   Pop2/Parser                   response/parser/mod.rs, rfc1734.rs
--   Pop2/Parser/Core, Rfc1939     response/parser/core.rs, rfc1939.rs
--   Pop2/Parser/Rfc2449           response/parser/rfc2449.rs
--   Pop2/Parser/Answers           the answers of RFC 1939 and 2449, which the parser is compared with
--   Pop2/Sasl                     sasl.rs
--   Pop2/Client                   lib.rs: the state; inner_mut, check_*, is_deleted, send_request
--   Pop2/Client/Features          capabilities: has_capability, capa, has_auth_mechanism
--   Pop2/Client/Commands          noop, uidl, top, dele, rset, retr, list, stat
--   Pop2/Client/Session           read_greeting, new, apop, auth, login, quit
--   Pop2/Client/Calls             a call of a public method as data, and sequences of calls
--   Pop2/Client/Answered          a request and its answer, where client, stream and parser meet
--   Pop2/Client/Talks             conversations: requests, each with the answer of the server
--   Pop2/Client/Greeted, LoggedIn, Opened   new, update_capabilities, auth and login in a conversation
--   Pop2/Types/Value              response/types/number.rs: value
--   Pop2/Types/Field, Lossy       response/types/message.rs and number.rs: the other methods
--   Pop2/Error/Message            async-pop2/src/error.rs: Error with its text
--   Mail/Crates                   chrono and mail_parser
--   Mail/Mailbox, Connect         src/lib.rs: Mailbox, Error, connect_any
--   Mail/Common                   src/common.rs
--   Mail/Whole                    connect_any and the reader, over Mail/Common
--   Mail/ServerMap                src/server_map.rs
--   Mail/Filters, Filters/Ext     src/filters.rs
--   Mail/Global                   ArcMap of src/server_map.rs, connect_any_global_map
--   Mail/Pop3, Imap               src/pop3_protocol.rs, src/imap_protocol.rs
--   Mail/Pop3/Served, Fetched     the reader in a conversation, from connect to the last mail
-- The other files hold proofs; Tests holds runs at concrete inputs.
--
-- Correspondence. A function of the model has the name of the function of the source; fields and
-- constructors have their names. A method `&mut self -> Result<A>` is an `Exec` over the record of
-- `self`. What stands behind a trait object or a third-party crate is a field of the record `Env`:
-- the socket with its reads and writes, the clock, zeroed and resized byte buffers with their
-- documented laws (`LawfulBuffers`), base64. The response parser is the field `from_bytes` there: the
-- stream uses of it only what it answers to a part of a response and to a whole one (`Replies`).
-- `with_parser` puts the parser of Pop2/Parser into that field, where the two meet. It is built, as in
-- the source, from the parsers of the crate nom: these are the record `Nom`, a parameter, and
-- `LawfulPrimitives` and `LawfulCombinators` state what nom documents. How many bytes nom asks for
-- behind a lone carriage return is not documented, and nothing is assumed of it (`cr_needs`): a part of an
-- answer that ends there, in front of a line feed, is left out where the parser awaits the end of a line for
-- itself, as it does for numbers, listings and capabilities.
--
-- A server is a socket of which the sends of the client and the polls are stated: `Delivers` says that it hands
-- over some bytes in pieces that end where they may (`MayEnd`) and what is stated of it behind the last one, and `Talks` repeats this
-- for each request. The stream never takes back `decode_needs`, so an answer that is shorter than what
-- the parser has asked for during an earlier one may not be looked at: `ServesAll` has the answers that
-- are long enough.
--
-- Bounds. `poll_next` is an unbounded loop and `.await` polls without bound: both take fuel, and
-- `stuck` is the outcome without any left. Each pass of the loop polls the socket once, so fuel above
-- the number of polls that it takes until a response is whole is enough. Lengths are natural numbers:
-- a buffer is at most 20 MiB, so no sum of them wraps.
--
-- The crate async-imap is the record `Imap` of Mail/Imap, and the opening of a connection the record
-- `Network` of Mail/Connect, which Mail/Common fills from the record `Sockets`: the proxy, the resolver, the
-- sockets and TLS. A HashMap is the list of its entries in the order of iteration.
--
-- Not modelled: the serde formats of the server map, log output, base64.
pub mod Base
pub mod Pop2
pub mod Mail
pub mod Tests
