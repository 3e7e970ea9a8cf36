-- ===== src/Base/Slices.antt =====
-- Lists over the native numbers, and Go's deletion from a slice inside a `range` over it.
mod Delete
unfoldable pub use Delete.{range_delete, length}
pub use Delete.{
  NoMatch, AtMostOne, reject, NoMatch-any, range_delete-once, range_delete-AtMostOne,
  range_delete-adjacent,
}
