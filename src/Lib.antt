-- ===== src/Lib.antt =====
-- Siorb: a verification development for its Rust crates.
--
-- Siorb resolves a package request against an authenticated catalog, checks it against layered
-- policy, plans the steps, runs them through the host's package managers and keeps receipts and a
-- journal. The files here model the crates that decide; what they run and read is a parameter.
--
-- Which file models what:
-- - Shared: tests on numbers, lists, texts as Rust's `str` reads them, orders, and sorted maps
--   (`BTreeMap`, `BTreeSet`) as association lists, with the lemmas that the components share.
-- - Core: crates/siorb-core/src/lib.rs. Errors has `ExitCode`, `ErrorKind`, `SiorbError` and
--   `Result` with `?` as bind; Platform has the host's description (`PlatformContext::support`);
--   Hosts has `validate_public_network_host`.
-- - Catalog: crates/siorb-catalog/src/lib.rs. The records of packages and their sources; Formats
--   the formats of artifacts, Identifiers the normal forms of names, Sources `validate_source`,
--   Document `validate_document` and `Catalog::from_document`, Lookup `search` and `lookup`.
-- - Policy: crates/siorb-policy/src/lib.rs. Layers has `PolicyFile`, `LayeredPolicy::new` and
--   self-update, Dates `parse_iso_date_days`, Versions the comparison of versions, Checks the
--   checks of one layer, Evaluate `evaluate_with_context`, Preference `backend_preference`. Load
--   has `PolicyFile::load`, and `load_policy` of crates/siorb-cli/src/lib.rs.
-- - Resolver: crates/siorb-resolver/src/lib.rs. Constraint has `VersionConstraint`, Host and
--   Candidate the rejections and the rank of a source, Select the choice among the evaluations,
--   Resolve `resolve_with_context`.
-- - Backends: crates/siorb-backends/src/lib.rs. Arguments has the arguments for each backend and
--   operation, Command `CommandSpec::validate` and `build_command`, Query `BackendQueryResult`.
-- - Planner: crates/siorb-planner/src/lib.rs. Steps has `native_steps`, Artifacts `artifact_steps`,
--   Build `Planner::build`, Revalidate `ExecutionPlan::revalidate`.
-- - Executor: crates/siorb-executor/src/lib.rs. Guards has the checks before a plan runs, Receipts
--   `commit_receipts`.
-- - State: crates/siorb-state/src/lib.rs. Journal has `reconciliation_statuses`, Store the
--   operations of `StateStore` on what its files hold.
-- - Update: crates/siorb-update/src/lib.rs. Metadata has the signed records, Roles `verify_role`
--   and the checks of one file, Verifier `RepositoryVerifier`, Transport `verify_from_transport`.
--
-- How they interact: the verifier of Update authenticates the catalog whose records Catalog has;
-- Policy judges a package and a source of it; State gives the installed packages with their pins
-- and holds, and what an interrupted transaction left open. The resolver looks a request up in the
-- catalog and selects one of the package's sources by host, policy and state; the planner turns its
-- resolutions into steps with the commands that Backends builds, and checks a plan again before it
-- runs. The executor checks the plan's shape and consent first, and in the end writes to the state
-- what the queries of the package managers showed.
--
-- Operations are functions on explicit state, and fallible ones return `Result`. The texts for
-- people in errors are left out: the kind, the reason code and `state_changed` are kept. Code of
-- other packages is a parameter: decoding, canonical JSON, SHA-256 and Ed25519 are the record
-- `Primitives`; the transport is a function from a path and a limit; `semver`, the URL parser and
-- the clock are the records `Semver`, `Requirements` and `Services`; Unicode normal form, URLs and
-- addresses in a catalog are `CatalogServices` and `Addresses`; the fingerprints, the clock and the
-- test for a file that the planner uses are `PlanServices`, the clock and the paths of the executor
-- `ReceiptServices`; the policy files and their places are `PolicyPlaces`.
--
-- Bounds: numbers are unbounded naturals, where the source's machine integers cannot overflow or
-- its code rejects what would; `parse_iso_date_days` keeps the wrap-around of an `i64` in a release
-- build, as a two's complement below 2 ^ 64. `verify_from_transport` rotates at most 64 times, as
-- its source. The loop over two native versions has as fuel their bytes and one more, which
-- `compare_native_versions-total` shows to be enough.
--
-- Not modelled: files, permissions, processes and the network, the encodings JSON and TOML, the
-- command line but for `load_policy`, and so far the parsers of the backends' output, the run of the steps in the executor,
-- and the crates bundle and platform.
pub mod Shared
pub mod Core
pub mod Catalog
pub mod Policy
pub mod State
pub mod Resolver
pub mod Backends
pub mod Planner
pub mod Executor
pub mod Update
