-- ===== src/Py.antt =====
-- What the source uses of Python itself: exceptions, floats, dates and the formatting of numbers.
pub mod Except
pub mod Float
pub mod Time
pub mod Format
pub mod Number
