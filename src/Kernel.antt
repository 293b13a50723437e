-- ===== src/Kernel.antt =====
-- packages/shared-kernel/src: exact money. A `bigint` is an integer of unbounded size, and an error
-- that is thrown is a value of `KernelError`, whose texts are left out.
pub mod IntegerMath
pub mod Money
pub mod Rates
mod Tests
