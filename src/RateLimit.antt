-- ===== src/RateLimit.antt =====
-- arguss/web/ip_rate_limit.py and arguss/web/scan_rate_limit.py: sliding-window limits.
-- A time is in nanoseconds, the resolution of `time.monotonic()`; the source has seconds as
-- floats. A limit that is 0 or negative in the source is 0 here.
pub mod Window
pub mod Ip
pub mod Scan
