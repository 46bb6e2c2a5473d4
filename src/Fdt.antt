-- ===== src/Fdt.antt =====
-- kernel/src/dev/fdt.c: the flattened device tree. A pointer into the blob is its address. A read
-- outside the blob is the outcome `fault`, a result `false` is `refused`. The tests of arguments
-- against `NULL` are left out: the arguments here are there.
pub mod Blob
pub mod Walk
pub mod Property
pub mod Find
pub mod Reads
pub mod Steps
pub mod Search
pub mod Payload
pub mod Texts
pub mod Tree
pub mod Lookup
pub mod Sample
mod Tests
