-- ===== src/Sorting.antt =====
-- The sorting exercises of algorithms/: simple_quicksort.c and quicksort.c.
pub mod Run
pub mod Array
pub mod Moves
pub mod Simple
pub mod Media
