-- ===== src/Js.antt =====
-- What the program uses of JavaScript: texts, numbers as texts, objects as dictionaries, and
-- the sorting of arrays.
pub mod Text
pub mod Dict
pub mod Sort
pub mod Join
pub mod Number
pub mod Signed
