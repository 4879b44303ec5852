-- ===== src/Lib.antt =====
-- clewdr-hub: a proxy that serves requests to Claude from a pool of accounts. This development models the core of
-- it: the actor that owns the pool of accounts, the limits of the proxy's users, what a failed request means
-- for its account, the retries of a request over the accounts, the health that is shown of the accounts, the billing
-- of requests, the address of a client, the parameters of a request, and the translation of responses.
--
-- The pool (src/services/account_pool) is an actor. Its state (`AccountPoolState`, here `PoolState`) has three
-- buckets: `valid`, a queue of accounts in rotation, `exhausted`, those that cool down until a time, and `invalid`,
-- those that are out. A request is dispatched to an account of `valid` (`dispatch`), and comes back with what it
-- learnt (`collect_by_id`), which may move the account into another bucket. Marked accounts are flushed to the
-- database (`do_flush`); writers of the database tell the pool what they wrote (`converge_invalidate`,
-- `update_slot_credential`). The limiter (src/services/user_limiter.rs) stands before the pool, and the classifier
-- (src/services/account_error.rs) makes of an error the reason with which an account comes back.
--
-- Files:
--   Common: tests, lists, maps and integers that the other files share. A `HashMap` or `HashSet` is a list; its
--     order stands for the iteration order, which the source leaves open.
--   Config/Decimal: `Display` and `FromStr` of `i64`.
--   Config/Reason: src/config/reason.rs, and `AuthMethod` of src/config/cookie.rs.
--   Config/Usage, Config/Slot, Config/Runtime: src/config/cookie.rs, with `TokenInfo` of src/config/token.rs and
--     `MimicryMode` of src/config/mimicry.rs; `apply_in_memory_runtime` of src/services/account_pool/fingerprint.rs.
--   Pool/State, Pool/Reset: src/services/account_pool/state.rs.
--   Pool/Dispatch: src/services/account_pool/dispatch.rs. Pick, Choice, Service and Affinity are its proofs.
--   Pool/Fingerprint, Pool/Collect: src/services/account_pool/fingerprint.rs.
--   Pool/Flush: `do_flush` of src/services/account_pool/persistence.rs, and `post_stop` of actor.rs beside it.
--   Pool/Probes: src/services/account_pool/probes.rs.
--   Pool/Actor: `handle` of src/services/account_pool/actor.rs, src/services/account_pool/reporting.rs, and
--     the `PoolSnapshotView` that src/services/account_health.rs reads.
--   Pool/Conservation: proofs about the buckets, over all of the pool's operations.
--   Limiter: src/services/user_limiter.rs.
--   Failure: src/services/account_error.rs, and the errors of src/error.rs that it tells apart.
--   Health: src/services/account_health.rs, with the columns of src/db/accounts.rs that it reads.
--   Pool/Loader, Pool/Reload: `do_reload` of src/services/account_pool/persistence.rs, `pre_start` of actor.rs and
--     `build_cookie_probe_slot` of probes.rs. Invariant, Terminal, Limits and Lifetime are its proofs.
--   Config/Row, Config/Cookie: the rows of src/db/accounts.rs and the text of a cookie of src/config/cookie.rs.
--   Billing: src/billing.rs; Billing/Ledger: the tables of src/db/billing.rs that it writes, and the usage reset
--     of src/api/admin/users.rs; Billing/Quota: `check_quota`.
--   Openai: the shapes of src/types/claude.rs and src/types/openai.rs; Openai/Response, Openai/Stream:
--     src/middleware/openai/response.rs and stream.rs. Collect describes both protocols apart from the code.
--   ClientIp: src/middleware/auth.rs, `resolve_client_ip_from`. Spoofing is its proofs.
--   Request/Sampling: src/middleware/claude/request.rs, `normalize_sampling_params`, with the fields of src/types/claude.rs
--     that it reads. Models says by name what the models accept; Accepted is its proofs.
--   Chat, Chat/Upstream, Chat/Loop: src/claude_code_state/chat.rs, `try_chat` and `try_count_tokens`, with `check_token` and
--     `release_account` of src/claude_code_state/mod.rs. Requests, Slots, Balance, Conserved and Ends are its proofs.
--   Json: the values of serde_json; Bridge: `NonStreamMessageAccumulator` of src/claude_code_state/chat.rs. Rebuild
--     describes a message and its stream apart from the code.
--   RefreshGuard: src/services/oauth_refresh_guard.rs, as the steps of tasks; Serial is its proofs. RefreshGuard/Refresh:
--     `persist_oauth_refresh` of src/claude_code_state/chat.rs under the locks; Safe, Steps, Pooled, Writes and SingleUse are its
--     proofs.
--   Examples: concrete inputs, and the theorems applied to them.
--
-- How the model stands to the code:
--   A turn of the actor is a function from a state and a message to a state, a reply and the database writes that
--   are attempted. Row ids are natural numbers and timestamps integers; an `f64` is its 64-bit pattern, a JSON value
--   its text. The time is an argument, one for a turn, and so are the answers of the database. The cache of the crate
--   moka, the semaphore of tokio and `DefaultHasher` are parameters, with the documented laws that the proofs use.
--   `none` as the result of `collect_by_id` or `handle` is a panic: the prefix of a credential ends within a
--   character; `unheard` as the reply is one whose caller is gone, which ends the actor. `+= 1` on a `u32` wraps.
--   `refreshes` counts the events that are sent to the administration page, and `probes` lists the probe tasks that are
--   spawned. No recursion has fuel but the printing of a number, which has 20
--   digits, as many as an `i64` can need.
--   The answers of the database to billing are a record; how SQLite adds two integers is a parameter of the ledger.
--   The calendar of the crate chrono, the parsers and the printer of serde_json, the patterns of the crate regex and the
--   `to_str` of a header of the crate http are parameters, as are the addresses and networks of the
--   crate ipnet. A run of the retry loops is the list of its effects, and what the upstream
--   answers to each attempt is an argument; the loop has the six attempts of the source, `MAX_RETRIES` and one.
--
-- Not modelled: what a probe task does, which is network I/O; the summary that a reload logs; logging; the handle that
-- sends the messages; the OAuth exchange and the keepalive, the headers and bodies of the requests to the upstream, the
-- other translation of requests, the keys and sessions of the users, the administration interface but for the usage
-- reset, and the command line.
pub mod Common
pub mod Config
pub mod Billing
pub mod Openai
pub mod Pool
pub mod Limiter
pub mod Failure
pub mod ClientIp
pub mod Request
pub mod Json
pub mod Bridge
pub mod Chat
pub mod RefreshGuard
pub mod Health
pub mod Examples
