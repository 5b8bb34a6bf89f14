-- ===== src/Go.antt =====
-- What the program uses of Go's standard library and of the sets of apimachinery.
pub mod Sets
pub mod Strings
pub mod Path
pub mod Strconv
