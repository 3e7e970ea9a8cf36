-- ===== src/Formatting.antt =====
-- krm-functions/lib/kubeobject/kubeobject.go: copying comments and the order of fields from one tree
-- of YAML nodes to another. A node of the parser has one parent, so the pointers of `Content` are
-- a tree, and what the code writes through them is the tree that the function returns.
pub mod Nodes
mod Matching
mod Copy
pub mod Update
pub mod Relation
pub mod Totality
pub mod Order
unfoldable pub use Nodes.*
unfoldable pub use Matching.*
unfoldable pub use Copy.*
