-- ===== src/Ktrace.antt =====
-- tools/ktrace.py, which turns a boot trace into kernel symbols: the symbol table and its binary
-- search, the kernel image, and the trace lines.
pub mod Symbols
pub mod Bisect
pub mod Resolver
pub mod Sorted
pub mod Resolved
pub mod Image
pub mod Straddle
pub mod Audit
pub mod Lines
pub mod Parsed
mod Tests
