-- ===== src/Memory.antt =====
-- Memory as bytes by address: what stands behind a pointer. lib.c's `memcpy`, `memmove` and
-- `memset`s, which are inline assembly there, as the loops that they carry out.
mod Copy
mod Move
mod Fill
unfoldable pub use Copy.*
unfoldable pub use Move.*
unfoldable pub use Fill.*
