-- ===== src/Transceiver/Races.antt =====
-- A round of the loop: both channels load the one `mem_tx`.
use pcm3060_kernelmodule.Transceiver.{Transceiver}
