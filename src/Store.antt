-- ===== src/Store.antt =====
-- The packages of store/: the PostgreSQL system of record, the graph and the vectors.
pub mod Fixtures
pub mod Address
pub mod Embedding
pub mod Postgres
pub mod Vector
pub mod Neo4j
