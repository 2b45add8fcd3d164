-- ===== src/User.antt =====
-- User programs and their library. A text is the list of its bytes before the NUL.
pub mod Ulib
pub mod Printf
pub mod Uniq
pub mod Wc
mod Tests
