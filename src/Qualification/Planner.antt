-- ===== src/Qualification/Planner.antt =====
-- `stable_topological_sort` of src/mercury_tools/qualification/planner.py.
mod Sort
pub mod Sets
pub mod Graphs
pub mod Edges
pub mod Relax
pub mod Loop
pub mod Turn
pub mod Order
mod Tests
unfoldable pub use Sort.*
