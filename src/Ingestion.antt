-- ===== src/Ingestion.antt =====
-- The loops of ingestion/: the two feeds, what they make of a block, enrichment and upkeep.
pub mod Blocks
pub mod Mined
pub mod Feeds
pub mod Pending
pub mod Enrichment
pub mod Analysis
