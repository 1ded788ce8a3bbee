-- ===== src/Lib.antt =====
-- Arguss scans a repository's dependencies for known vulnerabilities, proposes upgrades, decides
-- for each how far it may go without a human, and merges pull requests whose checks pass. This
-- library models the parts that decide and those that keep state: the lockfile parser, the
-- lenses, the engine, the counts of a scan, the rewriting of lockfiles, the merge task, the
-- wizard's sessions, the cache, the unpacking of archives, the rate limiters and the ceiling on
-- model calls.
--
-- How the parts interact. A lockfile becomes dependencies (Lockfile); advisories on them become
-- findings (Lenses.Vulnerability), from the answers that the cache keeps (Cache). A finding
-- yields at most one fix candidate (Engine.Discovery); the candidates of one package are joined
-- (Engine.Consolidate); each gets a verdict from its trust delta and its pipeline snapshot
-- (Engine.FixConfidence), unless an operator halted the engine (Engine.KillSwitch). The report
-- is counted and the counts are checked (Counts). A wizard leads the user through steps
-- (Wizard), the chosen upgrades are written into the lockfile (Rewrite), and uploaded workflows
-- are unpacked (Archive). Pull requests that were opened are registered with the authority that
-- their verdict gives (Actions.Populate), and a task polls their checks and merges them
-- (Actions.Merge). In front of the web application stand two rate limiters (RateLimit), and in
-- front of the language model a daily ceiling (Budget).
--
--   Base                  shared names, Boolean tests, lists, texts, paths, JSON values, sorting,
--                         dictionaries, results
--   Models                arguss/core/models.py
--   Semver                arguss/engine/fix_kind.py: parse_semver_triplet, compare_versions,
--                         pick_lowest_version_gt, classify_fix_kind
--   Engine.KillSwitch     arguss/engine/kill_switch.py: is_kill_switch_active
--   Engine.FixConfidence  arguss/engine/fix_confidence.py: compute_fix_confidence
--   Engine.Discovery      arguss/engine/fix_discovery.py: discover_fix_candidates
--   Engine.Consolidate    arguss/engine/consolidate.py: consolidate_candidates
--   RateLimit.Window      the deque of event times that both limiters keep for an address
--   RateLimit.Ip          arguss/web/ip_rate_limit.py: check_ip_rate_limit
--   RateLimit.Scan        arguss/web/scan_rate_limit.py: check_scan_rate_limit
--   Actions.Runs          arguss/web/action_runs.py: the two tables and the operations on them
--   Actions.Populate      arguss/web/action_runs.py: populate_action_run_candidates and
--                         add_action_run_candidate, under the constraints of its table
--   Actions.Merge         arguss/web/action_merge.py: run_action_merge_task
--   Lenses.Trust          arguss/lenses/trust.py: _levenshtein and _typosquat_distance (in Distance),
--                         _is_cadence_anomaly, _compute_subscore, and fetch_delta after its requests
--   Lenses.Pipeline       arguss/lenses/pipeline.py: _build_test_reality and _compute_subscore
--   Lenses.Vulnerability  arguss/lenses/vulnerability.py: VulnerabilityLens.scan and what it calls
--   Counts                arguss/engine/scan_counts.py: build_scan_counts (nodes in Nodes, rollups
--                         in Rollups, the counts and the checks in Build)
--   Lockfile              arguss/core/parser.py: parse_lockfile's first pass, the enclosing scopes
--                         (Scopes) and the parents of each install (Parents)
--   Rewrite               arguss/web/lockfile_fix.py: apply_fix_to_lockfile
--   Cache                 arguss/core/cache.py: class Cache, and init_db (Migrations)
--   Wizard                arguss/web/wizard_session.py: the table of sessions and
--                         get_or_redirect_wizard_session
--   Archive               arguss/web/zip_safe.py: extract_workflows_zip
--   GithubUrl             arguss/web/github_url.py: validate_git_ref, parse_github_url, and (Fields)
--                         extract_github_owner_repo
--   Budget                arguss/explanations/_budget.py: try_reserve_anthropic_call
--   Tests                 runs on sample data
--
-- Choices of the model. A text is its list of code points; `isdigit`, `lower` and `strip` are
-- those of ASCII. A time is a natural number of nanoseconds, or of seconds for the cache and the
-- wizard, where the source has floats and datetimes. Tests against 0.5, -0.5 and 0.3 are made
-- without fractions. A float that is only compared (EPSS, CVSS) is a natural number in a fixed
-- decimal unit. The dicts of the limiters are functions from keys, and their locks make each
-- check one step. The tables of action runs are lists of rows, and each operation takes the
-- tables and gives the new ones; the order of `ORDER BY updated_at` is not modelled. The digest
-- of an id, the environment, the file system, the ids that uuid4 draws, the clocks, GitHub's
-- answers, the parsed package.json, the walk of a repository, the tests of the pipeline's
-- regular expressions, `zipfile`, `json`, `urlparse`, the answers of OSV, EPSS, KEV and npm, and
-- the resolution of paths on disk are parameters. A table with a primary key is a dictionary. A
-- check that raises is an entry of a list of tests, of which the first that holds gives the
-- error. All loops but two are structural recursions on the list that they walk. The loop of the
-- merge task, which runs until it returns, is a recursion on the list of the turns that it lives
-- to make, of any length. The loop over the enclosing scopes of a lockfile key is a recursion on
-- fuel, one more than the key has characters, which suffices since each turn shortens the key.
--
-- Not modelled: all network clients, the parser of CVSS vectors, the display path of the lockfile
-- parser, the flow of a scan that calls the parts, GitHub's tokens, the pages, the command
-- line, and logging. They are input-output and presentation, or smaller than the parts above.
pub mod Base
pub mod Models
pub mod Semver
pub mod Engine
pub mod RateLimit
pub mod Actions
pub mod GithubUrl
pub mod Lenses
pub mod Budget
pub mod Archive
pub mod Lockfile
pub mod Cache
pub mod Wizard
pub mod Counts
pub mod Rewrite
pub mod Tests
