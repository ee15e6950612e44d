-- ===== src/Ring.antt =====
-- The index arithmetic that the serial buffers and the planner's block buffer share: a ring of
-- `size` cells with a head (the next cell to fill) and a tail (the oldest full cell), one cell
-- always free.
pub mod Count
pub mod Contents
