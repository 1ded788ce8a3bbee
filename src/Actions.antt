-- ===== src/Actions.antt =====
-- arguss/web/action_runs.py and arguss/web/action_merge.py: the registry of pull requests that
-- wait for CI, and the task that merges them.
pub mod Runs
pub mod Populate
pub mod Merge
