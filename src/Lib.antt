-- ===== src/Lib.antt =====
-- A verification library of the Crypto Intelligence Platform: a service that
-- tracks wallets of Ethereum and Base for Telegram users, takes snapshots
-- of them, collects their transactions and sends alerts about these.
--
-- The parts. The API (apps/api) checks the requests of a user and calls
-- services on the database; the worker (apps/worker) synchronises one wallet
-- at a time with the chain, stores new transactions, evaluates the alerts of
-- the wallet on each and queues one message per alert that fires. Both read
-- the chain through a provider. A user logs in with signed data of Telegram
-- and then sends a signed token, behind which there is a session in the
-- database. Limits on the rate of requests are kept in Redis in production and
-- in memory elsewhere.
--
-- Files and the code they model:
--   Errors      apps/api/app/core/errors.py and the exception handlers of
--               apps/api/app/main.py
--   Exec        the coroutines: a step takes the state and returns a result
--               or an error together with the state it leaves
--   Shared      packages/shared/shared/chains.py and domain.py
--   Addresses   apps/api/app/utils/addresses.py
--   Models      apps/api/app/models: a table is the list of its rows, Db is
--               all tables, and add_* are the inserts with their constraints
--   Provider    apps/api/app/providers/base.py, an interface
--   Wallets     apps/api/app/services/wallets.py
--   Alerts      apps/api/app/services/alerts.py
--   RateLimit   apps/api/app/utils/rate_limit.py: InMemory is the limiter in
--               memory, Lua the script and the limiter that runs it; Window is
--               the abstract sliding window that both refine, and Bounds what
--               follows for what they let through
--   Worker      apps/worker/worker/tasks.py: Defs has the parts of the tasks,
--               SameLocks is what leaves the locks alone between their taking
--               and their release
--   Config      apps/api/app/core/config.py
--   Tokens      apps/api/app/security/session.py
--   Users       apps/api/app/services/users.py
--   Http        apps/api/app/utils/http_retry.py
--   Deps        apps/api/app/api/deps.py
--   Telegram    apps/api/app/security/telegram.py, and the replay key of
--               apps/api/app/api/v1/auth.py
--   ClientIp    the address of a client in apps/api/app/utils/rate_limit.py
--   UrlSafety   apps/api/app/utils/url_safety.py
--   Etherscan   apps/api/app/providers/etherscan.py: Holdings and Transfers
--               read the two kinds of lists, Entries and Gains lead to Net
--   MockProvider  apps/api/app/providers/mock.py
--   Registry    apps/api/app/providers/registry.py
--   Ai          apps/api/app/ai/prompt.py (Sanitize, Prompt) and providers.py
--               (Providers), and apps/api/app/services/ai_explain.py (Service)
--   Logging     apps/api/app/core/logging.py
--   Schemas     apps/api/app/schemas/models.py
--   Endpoints   apps/api/app/api/v1: wallets.py (Wallets, Reads), alerts.py
--               (Alerts), auth.py (Auth), ai.py (Explain) and health.py
--               (Health); request_session is the session around a handler in
--               apps/api/app/db/session.py, and Arranged is about the order
--               of the rows of a page
--   Base        lists, options, text and decimals that the parts share
--   Tests       runs on concrete data
--
-- How the code is read. A UUID is a number drawn from a counter in the
-- database. A datetime is a number of seconds, in the limiters of
-- milliseconds. A Decimal of coins or dollars is a whole number of 10^-18
-- units; what Etherscan's numbers are divided into, and the sums of the amounts
-- of tokens, are rounded to 28 digits as Python's context does (Base/Decimals),
-- while the sums of dollars in a snapshot are exact. How a database arranges
-- rows of the same time is an argument of the endpoints that give pages; the
-- services and the snapshots keep such rows in the order of the table. A str is
-- a list of code points. A message text keeps its fixed parts. A session of the
-- database is a value: a failure before the commit leaves the old one,
-- session_scope is that rule. Requests and tasks run one after another, and a history is a
-- list of them. A call of the provider that fails is an error value.
--
-- Parameters. Keccak, SHA-256, the keyed hashes, base64, JSON, `str` of a
-- Decimal, the kinds of addresses and the parsers of UUIDs, URLs, addresses
-- and queries are functions given to the definitions, as are the answers of
-- the provider, of the model, of the network, of the resolver and of Redis and
-- the random fractions of a delay; what a theorem needs of them is a named
-- hypothesis.
--
-- Loops are structural recursion: over a list, or over the attempts that a
-- range gives. Two functions of the language take fuel: str_nat, which prints a
-- number, the number itself plus one, and digits_over, which counts the digits
-- beyond 28, the number itself; a number has no more decimal digits than that.
--
-- Not modelled: the set-up of FastAPI, of logging and of the engine of the
-- database, the middleware that numbers requests, and the bot's polling, which
-- are input and output or configuration of libraries; the migrations, which
-- declare the tables of Models again; and the web client, which is another
-- language.

pub mod Base
pub mod RateLimit
pub mod Errors
pub mod Config
pub mod Http
pub mod UrlSafety
pub mod Tokens
pub mod Telegram
pub mod Users
pub mod ClientIp
pub mod Deps
pub mod Schemas
pub mod Exec
pub mod Models
pub mod Shared
pub mod Addresses
pub mod Provider
pub mod Wallets
pub mod Endpoints
pub mod Alerts
pub mod Worker
pub mod Etherscan
pub mod MockProvider
pub mod Registry
pub mod Ai
pub mod Logging
pub mod Tests
