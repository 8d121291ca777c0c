-- ===== src/Spi.antt =====
-- src/utils/spi.c: the SPI device that a device-tree property names. Reference counts of
-- device-tree nodes and of the found device are left out.
use pcm3060_kernelmodule.Prelude.{ℕ, ◌^◌, Bool, ◌&&◌, none, some, leb, ◌==◌, if◌then◌else◌}
use pcm3060_kernelmodule.Kernel.Platform.{
  neg32, eprobe_defer, KernelPtr, null, err_ptr, object, SpiAnswers,
}

-- `of_find_spi_device_by_node`
unfoldable pub of_find_spi_device_by_node : SpiAnswers → ℕ → KernelPtr
of_find_spi_device_by_node sp node = elim (sp.bus_find_device node) [
  | none ↦ null
  | some dev ↦ object dev
]

-- `of_spi_get`; the flag says whether `con_id` is given. A device that is not found is NULL here, and
-- no ERR_PTR, so the test for IS_ERR at the end decides nothing.
unfoldable pub of_spi_get : SpiAnswers → Bool → KernelPtr
unfolding of_find_spi_device_by_node
of_spi_get sp con_id =
    let index = if con_id then sp.of_property_match_string else 0 in
    let (err, node) = sp.of_parse_phandle_with_args index in
    if con_id && leb (2 ^ 31) index
    then err_ptr index
    else if err == 0
    then of_find_spi_device_by_node sp node
    else err_ptr err

-- `spi_get`; the flag says whether `dev` is given.
unfoldable pub spi_get : SpiAnswers → Bool → Bool → KernelPtr
unfolding of_spi_get
spi_get sp dev con_id =
    if dev && sp.has_of_node then of_spi_get sp con_id else err_ptr (neg32 eprobe_defer)
