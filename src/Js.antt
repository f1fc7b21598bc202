-- ===== src/Js.antt =====
-- What the program uses of JavaScript and of Node's Buffer.
pub mod Text
pub mod Number
pub mod Radix
pub mod Utf8
pub mod Map
pub mod Json
pub mod Date
