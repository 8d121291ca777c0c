-- ===== src/Kernel.antt =====
-- What the driver uses of the kernel: outcomes of a call, byte copies, mutexes, the copies from
-- and to user space, the allocator, the SPI controller, and the calls that give back numbers and
-- classes. The last four are parameters with their documented contract.
pub mod Run
pub mod Completion
pub mod Platform
pub mod Memory
pub mod User
pub mod Alloc
pub mod Owned
pub mod Returns
pub mod SpiBus
pub mod Chardevs
