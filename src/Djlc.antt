-- ===== src/Djlc.antt =====
-- The containers of djlc/include, for `int` elements.
pub mod Cbuf
pub mod Deque
pub mod HashMap
pub mod Heap
pub mod Interval
pub mod LinkedList
pub mod ModMath
pub mod UnionFind
