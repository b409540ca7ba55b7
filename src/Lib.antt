-- ===== src/Lib.antt =====
-- EDUstell: savings vaults for education, contributions to them, payouts to schools, and
-- scholarship pools. This library models the core of the backend and proves what keeps its
-- balances right.
--
-- The parts and their files:
--   Common: Booleans, signed integers, 64-bit words, results, tables and texts that all parts share.
--     Actions is the monad of the handlers whose statements commit one by one.
--   Domain: the rules. StringEnum and Status model the macro `string_enum!` and its enums
--     (crates/domain/src/persistence.rs), Records the entities, Money the amounts and currencies
--     (crates/shared/src), Auth the roles, users and sessions, and Contributions, Payouts and
--     Scholarships the rule files of the same names in crates/domain/src.
--   Audit: the events of crates/application/src/audit.rs (Event, Events, Profiles), their recording
--     (Service), and the redaction that crates/infrastructure/src/persistence/repos.rs applies
--     before it writes one.
--   Store: the repositories and workflows of repos.rs. `Db` holds a list of rows for each table. A
--     workflow is a function from the state to an error or a result with the new state: a
--     transaction that fails is rolled back. Rows holds the conversions of rows to entities.
--   Application: the handlers of contributions.rs, payouts.rs (Payouts and Reviews),
--     scholarships.rs (Scholarships and Awards), schools.rs, savings.rs and kyc.rs in
--     crates/application/src. `settle_contribution` and `review_transition` read first and then run
--     one transaction; the model keeps these two parts apart (`plan_...` and `run_...`).
--   Auth: the ports of crates/application/src/ports.rs, the repository of
--     crates/infrastructure/src/auth/repo.rs, and the handlers of crates/application/src/auth.rs.
--   Api: the rate limit of apps/api/src/middleware/rate_limit.rs.
--   Notifications: crates/application/src/notifications.rs with its repositories in repos.rs.
--   Chain: crates/application/src/blockchain.rs with its repositories in repos.rs and the types of
--     crates/blockchain/src/lib.rs. It calls the settlement of Application.
--   Ledger: the balances of a vault against the rows that account for them. Balance relates
--     `total_contributed_minor` to the confirmed contributions, Reserves the locked and disbursed
--     columns to the payouts, and Machine is the abstract machine of three sums that the
--     settlements and reviews move.
--   Tests: sample data, and the properties applied to it.
--
-- What is outside: `Env` holds the clock, the identifiers that `Uuid::new_v4` gives, the messages of
-- the database, and for each kind of SQL statement whether it fails; the theorems hold for every
-- `Env`. `AuthEnv`, `NotificationEnv` and `ChainEnv` extend it with the password hasher and the token
-- service, the email sender, and the clients of the network. The constraints of the migrations that
-- a modelled statement can break are checked where it runs. The amounts are `i64`: sums and
-- differences wrap at 64 bits, as in a release build without overflow checks, and the theorems show
-- where they do not. A `Uuid` and a time are numbers. The handlers of Auth, Notifications, Chain and
-- of savings and identity checks run outside of a transaction: an `Action` gives the answer and the
-- state that it leaves behind, also when it fails.
--
-- Nothing runs on fuel but the decimal text of an amount (Notifications/Templates), where 20 digits
-- are enough for an i64. Handlers run one after the other, any number of them; interleaving is only
-- looked at between the two parts of a refresh. Not modelled: credentials, the provision of wallets,
-- the rest of the HTTP layer, and serialization.
pub mod Common
pub mod Domain
pub mod Store
pub mod Audit
pub mod Auth
pub mod Chain
pub mod Notifications
pub mod Api
pub mod Application
pub mod Ledger
pub mod Tests
