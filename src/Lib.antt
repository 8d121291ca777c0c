-- ===== src/Lib.antt =====
-- Verification library for the pcm3060 kernel module, a Linux driver that moves audio samples between
-- user space and a PCM3060 codec.
--
-- The program's parts. User space opens one character device per channel (src/chrdev_pcm3060.c). Its
-- reads and writes go to a reference-counted device object (src/periphery/pcm3060.c), which has a
-- duplex ring for each channel (src/utils/duplex_ring_buffer.c): two byte rings
-- (src/utils/ring_buffer.c) wired crosswise to two ends. One end is the file's, the other belongs to
-- the transceiver thread (src/periphery/transceiver.c), which sends the bytes over SPI
-- (src/utils/spi.c) at the rate of a PWM clock (src/periphery/clock_generator.c). Pins and devices are
-- found in the device tree (src/periphery/devicetree.c). The utilities
-- have another, fill-and-reset buffer for concurrent writers (src/utils/buffer.c), on which the dual
-- buffer and the pipe buffer stand.
--
-- The files, and what they model:
-- - Prelude: names of the standard library, Boolean tests on numbers, lists over native numbers,
--   slices and splices of byte arrays, 32-bit addition and subtraction with their wrap-around.
-- - Kernel: what the modules use of the kernel. `Run` is the outcome of a call (a result, a fault, a
--   wait for another call); `Memory` has memcpy with its bounds; `User` has copy_from_user and
--   copy_to_user as a record of operations and documented laws, which every client takes as a
--   parameter; `Alloc` has kmalloc and kfree in the same way, `SpiBus` the controller that spi_async
--   submits messages to, and `Chardevs` the calls that give back device numbers and a class. `Owned` and
--   `Returns` are the proof tools for allocation: which blocks a caller holds, and calls that return.
-- - Ring: src/utils/ring_buffer.c, one function per function of the source with the leading underscore
--   dropped. `_write_impl` and `_read_impl` are split into the choice of the two lengths
--   (`write_split`, `read_split`) and the copies (`store`, `fetch`). The ring's state is its record; a
--   call returns the new record. `Lifetime` has the allocation.
-- - DuplexRing: src/utils/duplex_ring_buffer.c. An end names its rings by `RingPtr`, so that both ends
--   share the two rings of the state, as the pointers of the source do.
-- - Buffer: src/utils/buffer.c. An atomic_t is its 32-bit pattern. The functions are those that one
--   thread runs; `Buffer.Writers` takes buffer_write_copy apart into its atomic accesses and lets any
--   number of threads interleave them, `Alone` is about one of them without the others, `LockOut` about
--   the mutex that two of them leave. `Lifetime` has the allocation.
-- - DualBuffer: src/utils/dualbuffer.c, over Buffer. The two pointers hold different buffers, so that
--   swapping them swaps the buffers themselves. `Readers` takes _copy and _write apart into their accesses
--   to the count and the pointers, for any number of threads; there a pointer is a name and the bytes
--   are left out.
-- - Pipe: src/utils/pipe_buffer.c, over Buffer, with the completions of `Kernel.Completion`. Whether a
--   fatal signal ends a wait is an argument of the calls that may wait.
-- - DuplexPipe: src/utils/duplex_pipe_buffer.c, over Pipe, in the same way as DuplexRing.
-- - Config: the constants and macros of src/config.h and src/utils/conversions.h that the code uses.
-- - Kernel.Platform: what the kernel answers during one call, as records that every operation on a
--   device takes as a parameter: PWM, pins, SPI, the platform bus and kthread_run. What mutex_lock,
--   wait_for_completion, kthread_stop and spi_dev_put do to the state that the driver shares with the
--   kernel is written out from their documented contracts: a lock is held, a completion is counted, a
--   thread ends, a reference is given back.
-- - Clock: src/periphery/clock_generator.c. The state is the static PWM pointer and what the device was
--   told.
-- - Devicetree, Spi: src/periphery/devicetree.c, src/utils/spi.c, the lookup of devices and pins.
-- - Transceiver: src/periphery/transceiver.c. The file's static data is one record. `tx_rx_on_channel`,
--   `tx_round` and `tx_run` are the channel call, one round of the loop and a number of rounds of
--   `_tx_run`, and `spi_complete` the callback. `Channel` is about what each call leaves, `Oldest` about the
--   bytes that it takes, `Thread` about the loop; `Setup` has tx_init and tx_cleanup, `Races` the `mem_tx`
--   that both channels share.
-- - Pcm: src/periphery/pcm3060.c, over Clock, Transceiver, DuplexRing and the allocator. A pointer is the
--   address of a block, and an access checks that the block is live, so that a freed object that is used
--   again is a fault. `References` is about the count, `Errors` about what failures leave, `Lifecycle`
--   about get, configure and put in turn (`Calls` there about each). `Overlap` takes get_pcm3060 apart
--   into its accesses to what its callers share: `Invariant` and `Steps` have what holds of all callers,
--   `Calls` what follows, `Alone` one caller against the call as a whole, `Races` what goes wrong, and
--   `Release` a get that comes into the middle of the last put.
-- - Chrdev: src/chrdev_pcm3060.c, over Pcm. The state has the two entries of the file data and the device
--   object. `Open` is about open and release, `Transfer` about read and write, `Session`
--   about sequences of them and of the transceiver's calls on one channel, `Sysfs` has the attributes,
--   `Registry` the registration and src/module_pcm3060.c.
-- - Drivers: src/periphery/drivers.c, with the callbacks' answers as a parameter.
-- - Tests: instances of the kernel interfaces, and the theorems at concrete inputs.
--
-- Bounds. A byte is a number, `unsigned int` is a number with `% 2 ^ 32` after every operation that
-- can wrap, and an `int` or `ssize_t` that is negative is its pattern. Storages have at most 2 ^ 31
-- bytes, far above what kmalloc returns. No definition needs fuel: every loop is a recursion on the
-- number of its rounds, and for `_tx_run`, which runs until it is stopped, that number is an argument.
--
-- Aliasing and concurrency. A pointer to a ring, buffer or end is its value where only one caller can
-- hold it, and a name where two can (`RingPtr`); freed and live blocks are told apart by the allocator's
-- heap. Rings are operated under their mutex, so a call is one step. Where calls overlap
-- (`Buffer.Writers`, `DualBuffer.Readers`, `Pcm.Overlap`), a program counter for each caller has its
-- locals, and any of them may take the next step. A call that meets a held lock or an open completion
-- has the outcome `blocked`.
--
-- Not modelled: logging; reference counts of device-tree nodes and of the platform device; gpio_free; what
-- the SPI controller receives, since the driver drops it; what the controller does with a queued message,
-- whose `struct spi_message` was on the stack of `_tx_rx_on_channel` and whose one `struct spi_transfer`
-- the next call sets up again, so that C and the contract of spi_async leave it undefined: the model ends
-- with the queueing; the other ways in which a put_pcm3060 can overlap other calls; the register names of
-- src/periphery/control_i2c_pcm3060.h, which no code uses; the user-space test suite; vendored
-- configuration and device trees.
pub mod Prelude
pub mod Config
pub mod Kernel
pub mod Ring
pub mod DuplexRing
pub mod Buffer
pub mod DualBuffer
pub mod Pipe
pub mod DuplexPipe
pub mod Clock
pub mod Devicetree
pub mod Spi
pub mod Transceiver
pub mod Pcm
pub mod Chrdev
pub mod Drivers
pub mod Tests
