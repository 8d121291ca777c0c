-- ===== src/Tests.antt =====
-- Concrete runs of the model, and each theorem at an input where its hypotheses hold.
mod Instances
mod Ring
mod DuplexRing
mod Buffer
mod DualBuffer
mod Pipe
mod DuplexPipe
mod Platform
mod Transceiver
mod Pcm
mod Overlap
mod Chrdev
