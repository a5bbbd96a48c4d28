-- ===== src/Lib.antt =====
-- forensic-listener: a model of the ingestion, storage, detection and API core, and its theorems.
--
-- The program listens to an Ethereum node. client/ keeps the subscriptions alive; ingestion/ turns
-- what they deliver into records and writes them to PostgreSQL through store/; its workers lease jobs
-- from a queue in PostgreSQL, project every committed transaction into the Neo4j graph, and run the
-- detectors of forensics/ on it, whose flags go back to PostgreSQL; api/ serves the stores over HTTP.
--
-- The files and the code that they model:
--   Models                       models/transaction.go, the shared records
--   Store/Address                store/address.go, NormalizeAddress
--   Store/Embedding              store/embedding.go, opcodeSkeleton and stripMetadata
--   Store/Postgres               store/postgres.go, SaveTransaction, SaveBlock and what they call
--   Store/Postgres/Accounts      the accounts table: upsertAccountsSQL, UpsertAccount, GetAccount
--   Store/Postgres/Transactions  the transactions and token_transfers tables
--   Store/Postgres/Queue         the enrichment_jobs table: claims, reports, backoff, pruning
--   Store/Postgres/Flags         the forensic_flags table: SaveFlag
--   Store/Postgres/Retries       withTx and isRetryable
--   Store/Postgres/Entities      the known_entities table: UpsertKnownEntity, SeedKnownEntities with
--                                store/known_entities_seed.go, the lookups, and the view address_risk
--   Store/Postgres/Pages         the lists of transactions, token transfers and flags
--   Store/Postgres/Counts        ExactCounts, LiveCounts and EnrichmentStatus
--   Store/Postgres/Network       RefreshNetworkHourly, NetworkMetrics and AddressVelocity
--   Store/Postgres/Dossier       GetAccountProfile and AccountCounterparties
--   Store/Vector                 store/vector.go: the table contract_vectors, with ContractDetail and
--                                RecentContracts of store/postgres.go
--   Store/Neo4j                  store/neo4j.go: the MERGE of accounts and edges, FindReturnPath
--   Store/Neo4j/Trace            store/neo4j.go: TracePath with FlowTypes, and TopHubs
--   Store/Neo4j/Repair           store/neo4j.go: RepairDuplicateAccounts, repairAccountGroup and ensureSchema
--   Ingestion/Blocks             ingestion/blocks.go, runBlocks
--   Ingestion/Mined              ingestion/engine.go, toModel and senderAddress; ingestion/blocks.go,
--                                ingestBlock and decodeTransfer
--   Ingestion/Pending            ingestion/engine.go, runPending and ingestWorker
--   Ingestion/Enrichment         ingestion/enrichment.go, enrich and the worker's reports
--   Ingestion/Analysis           ingestion/enrichment.go, analyseContract
--   Ingestion/Feeds              ingestion/status.go, and ingestion/maintenance.go on the same tables
--   Forensics/Circular           forensics/circular.go, Evaluate
--   Forensics/Anomaly            forensics/anomaly.go, EvaluateContract and PropagateLabel
--   Client/Stream                client/eth.go, stream and pump
--   Api/Security                 api/security.go, and the order of Router in api/server.go
--   Api/Params, Api/Cache        api/server.go, parseIntParam and cached
--   Api/Handlers                 api/server.go, the guards and answers of the handlers
--   Api/Snapshot                 api/snapshot.go, and handleEventStream in api/server.go
-- The modules below each of these prove its theorems; Tests modules run the definitions.
--
-- State is passed explicitly. `Db` is the tables of PostgreSQL that ingestion writes, a table being
-- the list of its rows. One call of a method of Postgres is one transaction (withTx, or one
-- statement), so it is one function from the tables to the tables or to the error that rolls it back.
-- SaveBlock and UpsertKnownEntity
-- run under the constraints of their tables (migrations/): unique block hashes, the foreign keys, the
-- CHECK of an account's address and that of a risk level. The ranges of the number columns are left
-- out, and the other writes are taken to violate nothing. A Cypher query is written out by its meaning: FindReturnPath enumerates the trails of the graph by
-- their length, and the repair of duplicate accounts runs over a graph whose nodes have ids, as MERGE
-- on an address alone cannot tell two nodes of one address apart. Calls that may fail are an argument
-- that says whether they do. The event stream runs over what wakes its loop and the hub that it then
-- finds, so every interleaving of publishes and reads is one of its arguments. The pending feed and
-- its workers are a relation of steps. The clock is an argument, in microseconds. Decimal texts are
-- the numbers that they denote.
--
-- Bounds and fuel: `ingest_range` runs on the rounds that the loop over block numbers has left,
-- head.number + 1 - start, so it ends exactly where the condition `n <= number` does. `shortest` runs
-- over the 1 to 4 lengths that the pattern allows, 1 to 6 in TracePath, and `attempts` over the 5
-- attempts of withTx. `repair_loop` runs on one round for each node of the graph and one more: a round
-- that finds a duplicate deletes a node. uint64 arithmetic wraps at 2 ^ 64 where the code's does, and
-- strconv.Atoi refuses what 64 bits do not hold. Attempts, times and amounts are unbounded.
--
-- Parameters: `AddressLib` is what go-ethereum's common package does with addresses (IsHexAddress and
-- the EIP-55 spelling), with the laws that are relied on; `EthLib` is its hex text of an address, its
-- recovery of senders, and the hash of the Transfer event; that its addresses are 0x and 40 hex digits
-- is a named hypothesis where it is needed. `attempt` and `alive` of Ingestion/Blocks
-- are the node, the store and the context; `keccak` of Store/Vector is Keccak-256; the rounds of
-- Client/Stream are what the node does.
--
-- Not modelled: connections, logging, JSON and the texts of messages, the SQL of the most active
-- addresses and of the flag chart, the graph around an address, float vectors and their similarities,
-- the web front end, the devnet traffic generator.
pub mod Prelude
pub mod Models
pub mod Store
pub mod Ingestion
pub mod Forensics
pub mod Client
pub mod Api
