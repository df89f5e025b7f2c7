-- ===== src/Python.antt =====
-- What the backend uses of Python's built-in text functions, written out from their documented
-- behaviour: white space and `strip`, `int()`, `float()`, `str.replace`, `str.split`.
pub mod Chars
pub mod Number
pub mod Float
pub mod Replace
