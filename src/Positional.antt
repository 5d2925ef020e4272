-- ===== src/Positional.antt =====
-- The positional store (ferratomic-positional).
pub mod Merge
pub mod MergeLaws
pub mod Live
pub mod LiveLaws
pub mod ChunkFingerprints
pub mod ChunkSums
pub mod ChunkDiff
pub mod ChunkDecomposition
pub mod EntityRle
pub mod EntityRuns
pub mod Eytzinger
pub mod EytzingerTree
pub mod EytzingerNodes
pub mod EytzingerFill
pub mod EytzingerLayout
pub mod EytzingerOrder
pub mod EytzingerSearch
pub mod Permutation
pub mod PermutationOrder
pub mod PermutationSearch
pub mod Interpolation
pub mod InterpolationLaws
pub mod Keys
pub mod Gets
pub mod GetsFound
