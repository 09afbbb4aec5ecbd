-- ===== src/Scorecard.antt =====
-- cmd/scorecard: the terminal table, the HTML report and the command line over the pipeline.
mod Tests
pub mod Format
pub mod Labels
pub mod Headline
pub mod Table
pub mod Report
pub mod Html
pub mod Page
pub mod Command
