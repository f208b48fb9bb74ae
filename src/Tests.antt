-- ===== src/Tests.antt =====
-- Runs of the models on concrete inputs, with the numbers of core/bitmod in the place of its keys,
-- ids and texts.
mod CacheTests
mod KeyTests
mod DistanceTests
mod RouterTests
mod SessionTests
mod CostTests
mod StoringTests
mod EvidenceTests
mod LinkTests
mod PipelineTests
mod RoleTests
mod IndexTests
mod LimiterTests
mod SemanticTests
mod EvictionTests
mod MigrationTests
mod NamespaceTests
mod ChunkTests
