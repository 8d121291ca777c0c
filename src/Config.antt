-- ===== src/Config.antt =====
-- src/config.h, and HZ_TO_NS of src/utils/conversions.h: the constants and macros that the code uses.
-- The macros are products of `unsigned int`, so they wrap.
use pcm3060_kernelmodule.Prelude.{ℕ, ◌*◌, ◌/◌, ◌%◌, ◌^◌, Bool, ◌&&◌, leb, ◌==◌, if◌then◌else◌}
use pcm3060_kernelmodule.Kernel.Run.{Run, ok, fault}

abbrev pub nchannels : ℕ
nchannels = 2

abbrev pub default_fs_hz : ℕ
default_fs_hz = 44100

abbrev pub default_buf_size : ℕ
default_buf_size = 512

-- CONFIG_IS_VALID_FS
abbrev pub is_valid_fs : ℕ → Bool
is_valid_fs fs_hz = leb 16000 fs_hz && leb fs_hz 192000

-- CONFIG_GET_CLOCK_SCK_F_HZ and CONFIG_GET_CLOCK_BCK_F_HZ
abbrev pub clock_sck_f_hz : ℕ → ℕ
clock_sck_f_hz fs = (fs * 256) % 2 ^ 32

abbrev pub clock_bck_f_hz : ℕ → ℕ
clock_bck_f_hz fs = (fs * 64) % 2 ^ 32

-- CONFIG_N_BYTE_SIZE_PER_TX, for 24 bits; CONFIG_SPI_N_BYTE_PER_TX; CONFIG_SPI_WORD_LEN
abbrev pub n_byte_size_per_tx : ℕ
n_byte_size_per_tx = 3

abbrev pub spi_n_byte_per_tx : ℕ
spi_n_byte_per_tx = 4

abbrev pub spi_word_len : ℕ
spi_word_len = 8

-- HZ_TO_NS: a division by zero is undefined.
abbrev pub hz_to_ns : ℕ → Run ℕ
hz_to_ns f = if f == 0 then fault else ok (1000000000 / f)
