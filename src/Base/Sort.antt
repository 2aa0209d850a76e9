-- ===== src/Base/Sort.antt =====
-- Go's `slices.SortFunc`: what its documentation promises, and a routine that keeps the promise.
mod Interface
mod Insertion
pub use Interface.*
unfoldable pub use Insertion.{insertion_sort, insertion_sort_func}
