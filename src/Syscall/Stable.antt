-- ===== src/Syscall/Stable.antt =====
-- What the kernel decodes is what would be decoded again: `from_args` and `as_args` of
-- xous/xous-rs/src/syscall.rs on words that need not come from `as_args`.
use beet_core.Abi.After.{After}
