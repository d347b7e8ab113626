-- ===== src/Search.antt =====
-- internal/search: values, the sorted index of range queries, the inverted index and the queries.
pub mod Value
pub mod SortedIndex
pub mod Scorer
pub mod Engine
pub mod Json
pub mod Leaves
pub mod Query
pub mod Suggest
mod Tests
