-- ===== src/Logging.antt =====
-- internal/logging/logging.go: the daemon's own log.
--
-- The handlers of a logger share its output, so the output is a state of its own, which the calls
-- pass on: Logging/Output. Logging/Record renders a record and Logging/Level maps the levels.
pub mod Level
pub mod Record
pub mod Output
pub mod Flat
pub mod Quote
pub mod ReadBack
pub mod OneLine
pub mod OneFile
pub mod NoLeak
pub mod Derive
pub mod ToyQuote
pub mod Tests
