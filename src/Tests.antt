-- ===== src/Tests.antt =====
-- Runs of the definitions, and each theorem that has hypotheses at an input that meets them.
mod Fixtures
mod Documents
mod ConfigRuns
mod QueueRuns
mod BookmarkRuns
mod DownloadRuns
mod SavedRuns
mod ProxyRuns
mod StreamRuns
mod PoolRuns
mod StateRuns
mod SegmentRuns
