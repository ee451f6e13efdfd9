-- ===== src/Lib.antt =====
-- simple-im: a hub through which agents find one another and exchange messages.
--
-- Participants bind a name (src/registry.rs, seen through src/presence.rs), may send to one another
-- where a grant covers the pair (src/trust.rs), and meet in rooms (src/rooms.rs). The hub
-- (src/delivery.rs) keeps one locked state, `HubInner`, that holds the trust chain, the tokens with
-- their streams and names, the queues, the grant requests and the claims of governorship; each of its
-- methods takes the lock, changes the state, and then wakes readers and writes to the store. The
-- handlers of src/http.rs read the bearer token of a request, call one method and print its answer. A governor, if there is one, approves grant
-- requests first; governors are elected by the participants whose streams are open.
--
-- Which file models what:
-- - Error: `Error::code` and `Error::message` of src/error.rs; Error/Codes compares them.
-- - Registry: `Registry` of src/registry.rs, one function for each method. Registry/Laws describes
--   each by the registration that shows for a name at a time, Registry/Ownership follows runs.
-- - Presence: `PresenceModule` of src/presence.rs; its `register` and `deregister` are `enter` and
--   `exit`.
-- - Trust/Grant, Trust/Chain: the records and the operations of `TrustChain` of src/trust.rs.
--   Trust/Check is the loop of `check_grant_directed_with_names`, Trust/Listing the listings,
--   Trust/Transfer the transfer of the governor flag, Trust/Load the start from the store.
--   Trust/Ids, Trust/Budget, Trust/Access and Trust/Purge prove what they say of identifiers,
--   budgets and access.
-- - Rooms: `RoomStore` of src/rooms.rs; Rooms/Order is `sort_unstable`.
-- - Hub/State: the records of src/delivery.rs and src/types.rs. Hub/Queue: deposits, `take_notify`,
--   `pop_message`, `dequeue`, `pending_count`, `drain_queue`; Hub/Inbox and the files under Hub/Queue
--   prove what readers see.
-- - Hub/Denial: denial blocks. Hub/Governance: `claim_governorship`, `respond_claim`,
--   `admin_reset_governor`, with proofs about claims in Hub/Governance/Electorate, about votes in
--   Hub/Governance/Claims, and about runs in Hub/Governance/Moves and Hub/Governance/Votes.
-- - Hub/Authority: the hub's `approve_grant_req`, `transfer_governor` and `accept_governor_transfer`,
--   here `approve_directly`, `begin_transfer` and `accept_transfer`.
-- - Hub/Sending: `send`, with its charges in Hub/Sending/Budget, the reply windows in
--   Hub/Sending/Windows and the hint of a refusal in Hub/Sending/Hints. Hub/Mediation:
--   `resolve_mediation`. Hub/Attachments: `attach` and `fetch_attachment`; what the
--   store answers to them is the record `StoreAnswers`.
-- - Hub/Requests: `request_grant`; Hub/Requests/Decide: `approve_grant_request`,
--   `deny_grant_request`, `hold_grant_request`; Hub/Requests/Revoke: `revoke_grant`.
-- - Hub/Tokens: the listen tokens, from `register_participant` to the bearer's reads and the long poll;
--   Hub/Tokens/Mint is about the loop that draws a new token. Hub/Issue: `issue_participant_token` and
--   `install_governor`.
-- - Hub/Names: `bind_name`, `gc_tokens` and `announce`; Hub/Listening with Hub/Listening/Closing:
--   `open_listen`, `close_listen` and `cancel_listen`; Hub/Removal: `revoke_token`, `revoke_by_name` and
--   `delete_self`, with Hub/Removal/Traces on what they leave behind. Hub/Names/Book holds the invariant
--   of the names and tokens, one file below it for each operation, and Hub/Names/Book/Run for runs.
-- - Hub/Peers: who is told that a participant comes and goes, and the settle timers. Hub/Visible and
--   Hub/Visible/Lookup: presence, the roster and the listings, as a bearer sees them.
-- - Hub/Start: `DeliveryHub::new` and `new_with_persisted_state`; Hub/Start/Restored is about their
--   names and tokens.
-- - Http/Respond: responses, errors and the bearer token of src/http.rs; Http/Time: the ISO 8601 texts,
--   compared with the Gregorian calendar in Http/Time/Calendar; Http/Filename: `sanitize_filename`.
-- - Http/Handlers: the handlers, by subject in the files below it. `send_to_token` of the hub stands in
--   Http/Handlers/Mail. Http/Serve: the router; Http/Serve/Access: requests without a token.
-- - Config: `Config::from_env_and_args` of src/main.rs; Config/Bounds is about its numbers.
-- - Base: texts as lists of code points, association lists for `HashMap`, decimal numbers, and the
--   list lemmas. Examples: each theorem at a concrete input.
--
-- Conventions. A handler is a function from the state and its arguments to its answer, the state that
-- it leaves and, in the hub, the list of effects outside the lock (waking a reader, sending on a
-- stream, writing to the store; the store is always given the write). A clock reading is an argument,
-- in nanoseconds from a fixed origin, and the Unix time is in seconds; a handler that reads a clock
-- twice takes both readings. `duration_since` of a later instant is 0. Random bytes and words are
-- arguments. The text that `serde_json` makes of a notice is given by the argument `render`. A `u64`
-- counter wraps at 2^64. A `HashMap` is a list of pairs in which `get` finds the first; theorems that
-- need one entry for each key say so. `i64` columns of the store are given by their bit pattern.
--
-- Where a method needs more of its surroundings, they are the record `Env` (clocks, which channels and
-- timers are closed, `render`) or, for a request, the record `Call`. A stream is known by a number, and
-- what is sent on it is an effect. A settle timer is an entry of `settle_tasks` and an effect that starts
-- the task. The generator's draws for a token are a list, and a method answers `none` if it runs out; the
-- proof about `mint` says how many draws are enough. `from_utf8_lossy` on a payload is the
-- identity, since payloads of requests are texts.
--
-- Recursion is structural, with two exceptions. The printing of a number runs on twenty digits: 2^64 has
-- twenty. The loop over the years in Http/Time runs on days / 365 + 1 rounds, since each takes 365 days
-- or more; its u32 year wraps.
--
-- Not modelled: the SQL of src/persistence.rs, the rest of the process start in src/main.rs, the
-- texts of the skills and of the OpenAPI file, which the build includes (`Documents`), the logging of requests,
-- `issue_token`, which only tests call, and what the web framework does: decoding bodies and queries, and
-- the framing of event streams. The broadcast channel of the governor's events is the effects that send
-- on it.
pub mod Base
pub mod Error
pub mod Registry
pub mod Presence
pub mod Trust
pub mod Rooms
pub mod Hub
pub mod Config
pub mod Http
mod Examples
