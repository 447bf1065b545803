-- ===== src/Lib.antt =====
-- The backend of Beacon, a monitoring platform: its domain services and the statements that they run
-- on the database, as functions over explicit state, with the laws that make them correct.
--
-- Parts and files. Paths are from the repository's root; `Service.Run` of a package is the function
-- `run` of the module named after the package, and so for every function and method.
-- - Text, Text/Laws, Text/Trim, Text/Decimal: Go strings as lists of bytes, with the functions of
--   package strings that the program calls. Case mapping and white space are those of ASCII.
-- - World, World/Rules, World/Keeping: the errors (backend/internal/platform/apperror/apperror.go), the audit log
--   (backend/internal/domain/audit/recorder.go) and the monad of a service call. A world holds a
--   component's tables, the audit log and a schedule of faults; each statement takes the head of the
--   schedule and fails without effect if it is true, so that a theorem over every world is one over
--   every pattern of database failures. A write whose error the source ignores is `best_effort`.
--   The functions of the statements test the CHECK constraints and unique indexes of the migrations
--   (backend/migrations) on the columns that they write, but for the index on the customer ids of
--   organizations, which the payment provider draws.
-- - EmailMatch: backend/internal/platform/emailmatch/emailmatch.go.
-- - Role: backend/internal/domain/auth/user.go.
-- - Plan: backend/internal/domain/plan/plan.go; the two atomically swapped snapshots are `Live`. Its
--   children hold the pricing page (Catalog) and the laws (Applied, Resolution, Pricing).
-- - Ledger: backend/internal/adapter/postgres/billing_repo.go and org_plan_repo.go, one function for
--   each statement on the tables of Ledger/Rows; Laws and Conservation say what they do to balances.
-- - Billing: backend/internal/domain/billing/billing.go over the ledger. The payment provider is the
--   record `Payments` of what it answers.
-- - Diagnose: backend/internal/domain/diagnose/diagnose.go over the ledger and the plans. The prober,
--   the model and the monitor lookup are the record `Services`.
-- - ApiKey: backend/internal/domain/apikey/apikey.go with the statements of
--   backend/internal/adapter/postgres/apikey_repo.go; Issuing, Verifying and Lifecycle hold its laws.
-- - Maintenance: the data, validation and statements of planned downtime
--   (backend/internal/domain/maintenance, backend/internal/adapter/postgres/maintenance_repo.go); its
--   child Service holds the use cases, Windows, Tenancy, Histories and Coverage the laws.
-- - Monitor: backend/internal/domain/monitor/monitor.go; Monitor/Headers and Monitor/Validation
--   are rules.go, with the laws of requests and repositories, Monitor/Store the statements of
--   backend/internal/adapter/postgres/monitor_repo.go and heartbeat_repo.go, Monitor/Service the
--   use cases of service.go, with its inputs and bounds in Inputs and its laws in Quota and
--   Pausing.
-- - Projects: backend/internal/domain/project/project.go; Projects/Store the statements of
--   backend/internal/adapter/postgres/project_repo.go, Projects/Service the use cases of service.go,
--   and Slugs, Slugs/Allocation and Cascade the laws.
-- - Channels: backend/internal/domain/notification/service.go on the tables of Dispatch, with the
--   statements of backend/internal/adapter/postgres/notification_repo.go; Channels/Validation is
--   validateChannel, and Push and Settings hold the laws.
-- - Heartbeat: backend/internal/domain/heartbeat/heartbeat.go, on the tables of the monitors.
-- - GithubActions: backend/internal/domain/githubactions/githubactions.go, on the same tables.
-- - Auth: backend/internal/domain/auth. The module holds user.go and token.go; Auth/Names and
--   Auth/Policy the helpers and emailpolicy.go, Auth/Store the statements of
--   backend/internal/adapter/postgres/user_repo.go and refresh_token_repo.go, and Auth/Sessions,
--   Auth/Letters, Auth/Signup and Auth/Recovery the use cases of service.go. Auth/Histories are
--   sequences of calls; Auth/Stability, Spent, Rotation, Resets, Registers and Logins hold the laws.
-- - Account: backend/internal/domain/account on the tables of Auth; Account/Erasure holds its law.
-- - Slug: backend/internal/platform/slug/slug.go.
-- - ControlPlane: backend/internal/adapter/controlplane; ControlPlane/Capping is capToPlan, Rules and
--   Generator are generator.go, Files is writeAtomic, Workers two jobs of backend/internal/worker,
--   and Syncing is Sync with the two statements of
--   backend/internal/adapter/postgres/monitor_repo.go that it reads by. Capping/Oldest,
--   Generator/Tenancy, Generator/Jobs and Syncing/Projection hold the laws.
-- - StatusPage: the headline of backend/internal/domain/statuspage/statuspage.go; StatusPage/Settings
--   its settings, with backend/internal/adapter/postgres/statuspage_settings_repo.go, and
--   StatusPage/Public the public read, with statuspage_repo.go. Headline, Slugs, Updates and Serving
--   hold the laws.
-- - Dispatch: backend/internal/domain/notification/dispatcher.go, with what it sends as an outbox.
--
-- How the parts interact: Billing and Diagnose run on the tables of Ledger, which asks Plan which
-- tier applies; Plan asks EmailMatch who is an operator or is granted the top tier. Monitor asks a
-- plan reader for the tier, as Ledger answers it, and Plan for its limits. Heartbeat and GithubActions
-- write to the rows of Monitor by the token in a URL. Dispatch asks a suppressor, as Maintenance
-- answers it, before it sends. ControlPlane reads the tables of Monitor and the plans of Ledger.
--
-- Numbers. Times are seconds, 0 the zero time; ids are numbers, 0 the nil id. A quantity that the
-- database keeps nonnegative is a natural number, one of a request may be negative; the purchase
-- of credit is computed in int64 with its wrap-around, and a balance is a bigint with its bounds.
-- Fuel stands only in decimal printing, where `n + 1` rounds suffice for `n`, as its law shows.
--
-- Not modelled: rate limits, the settings and configuration files; and transport, JSON, logging, configuration, the process entry points, the provider's and
-- the notifiers' clients; messages with parameters keep their format only.
pub mod Prelude
pub mod Text
pub mod World
pub mod Role
pub mod EmailMatch
pub mod Plan
pub mod Ledger
pub mod Billing
pub mod Diagnose
pub mod ApiKey
pub mod Maintenance
pub mod Monitor
pub mod Heartbeat
pub mod GithubActions
pub mod Dispatch
pub mod Slug
pub mod Auth
pub mod Channels
pub mod Projects
pub mod ControlPlane
pub mod StatusPage
pub mod Account
