-- ===== src/Go.antt =====
-- What the program uses of Go and its standard library: errors, maps, texts and numbers in text.
pub mod Error
pub mod Map
pub mod Text
pub mod Number
pub mod Scanner
pub mod Base64
