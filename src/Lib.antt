-- ===== src/Lib.antt =====
-- Verification library of the legal chatbot of UEB (src/legal_chatbot).
--
-- The parts and how they interact. An inbound chat message reaches the channel service, which leases
-- a binding of its sender to a conversation, asks the conversation for an answer, reserves the
-- outbound delivery, asks for the one permitted send, sends, and records the receipt. The conversation
-- reserves an exchange, and completes it with the result of the chat, against a state version. The
-- state is in database tables, behind three repositories. Evidence for the answers is cut into chunks when
-- documents are ingested, and selected per question under a budget.
--
-- Prelude, Table, Unicode: shared helpers; a table with a primary key, unique selects and updates; the
--   text normalisers of channels/models.py, conversation/models.py over the tables of `unicodedata`,
--   which are a parameter. Unicode/Substrings states what normalization form C promises of substrings.
-- Conversation/Models: requests, results, settings and errors: src/legal_chatbot/conversation/models.py,
--   errors.py, config.py.
-- Conversation/State, Conversation/Snapshots: turns, references, snapshots and compaction candidates, and
--   how conversation/repository.py loads them; Snapshots/Loaded is about what a loaded one satisfies.
-- Conversation/Store: the tables of conversation/orm.py with their constraints (retrieval runs are the
--   identifiers that a foreign key may name), and the contract of a stored result.
-- Conversation/Queries, Conversation/Exchanges, Conversation/Completion: `PostgresConversationRepository` of
--   conversation/repository.py: create_conversation and reserve, complete.
-- Conversation/Policy: conversation/policy.py, the texts that a snapshot becomes: the rolling summary, the
--   retrieval query, the projected context, the state update. Projection is about its bounds.
-- Conversation/Results, Conversation/Service: the contract of a chat result, and `ConversationService` of
--   conversation/service.py, which reserves, asks the chat and completes, or replays an exchange.
-- Conversation/Calls: sequences of their calls. Once follows the state version, Processing the exchange
--   that is being processed.
-- Chat/Words, Chat/Retrieved, Chat/Planner, Chat/Policy, Chat/Prompt, Chat/Grounding: of
--   src/legal_chatbot/chat the texts and patterns, the contracts of its ports, planner_models.py, policy.py,
--   prompt.py and the checks of service.py; retrieval/models.py is in Retrieved.
-- Chat/Service: `GroundedChatService.respond` of chat/service.py over its ports, a record of functions.
--   Closed is about what it returns, Asked about the ports that have no say in it, Grounds about the
--   citations, Supported about the evidence, Returns about the fixed texts; Replayed puts the conversation
--   over the chat.
-- Channels/Models: src/legal_chatbot/channels/models.py and errors.py.
-- Channels/Store: the tables of channels/orm.py, transactions, and what an exception becomes.
-- Channels/Bindings: `PostgresChannelBindingRepository` of channels/repository.py: reserve, activate,
--   fail. Refinement states its specification on slots of identities, Fencing what a lease guards,
--   Permanence that a binding stays, Validity the constraints, Frame what it leaves alone.
-- Channels/Outbound: `PostgresChannelOutboundRepository`: reserve, mark_sending, complete. Effects
--   reads its calls as a step relation, Validity states the constraints, AtMostOnce is about sequences
--   of calls, Names about the row that a reservation names.
-- Channels/Service: `ChannelService.handle_inbound` of channels/service.py, a data type with one
--   constructor for each awaited call and one function from the answer of each to the next.
-- Channels/Formatter: `ChannelFormatter` of channels/formatter.py; Formats is about its branches.
-- Channels/System: any number of handlers over both repositories and the channel, as events. A change of
--   the conversation tables is an event too; its cascade deletes bindings and deliveries (Deletion).
-- Channels/Recipients: src/legal_chatbot/channels/recipients.py, its objects in a heap.
-- Ingestion/Chunking: `DeterministicChunker` of src/legal_chatbot/ingestion/chunking.py.
-- Retrieval/Roles, Retrieval/Evidence: candidate_roles.py and evidence_budget.py of
--   src/legal_chatbot/retrieval/quality_repair.
-- Examples: concrete inputs, and the theorems at them.
--
-- Conventions. UUIDs are numbers, an aware datetime is its instant in microseconds, a text is the list
-- of its code points, an HMAC or a code a string. A method of a repository is a function from the
-- database to its outcome and the database after it; a row that it has selected is locked, so it is
-- atomic but for the insert race, which `between`, or the flag `raced` of an event, stands for. New row
-- identifiers are arguments. Scores are of any type with a comparison and a zero.
--
-- Fuel. The chunker has one round for each position of the text and one to leave its loop; the fuel of
-- a registry bounds the forwarding. Python has neither bound; that of the chunker is never reached.
--
-- Not modelled: logging, timestamps that no condition reads, the purge of conversations, the parsers,
-- the planner service and the quality prompt of the chat, the provider packages, retrieval over
-- PostgreSQL, document adapters, floating-point code, and everything that is only a call of a library.
-- What a compiled pattern finds and what `str.casefold` maps to are parameters.
pub mod Prelude
pub mod Table
pub mod Unicode
pub mod Chat
pub mod Conversation
pub mod Channels
pub mod Ingestion
pub mod Retrieval
pub mod Examples
