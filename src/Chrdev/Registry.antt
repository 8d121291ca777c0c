-- ===== src/Chrdev/Registry.antt =====
-- chrdev_pcm3060_register, chrdev_pcm3060_unregister and src/module_pcm3060.c, which calls them.
use pcm3060_kernelmodule.Prelude.{
  ℕ, zero, suc, ◌+◌, ◌^◌, List, [], ◌∷◌, ◌++◌, leb, ◌==◌, if◌then◌else◌,
}
use pcm3060_kernelmodule.Config.{nchannels}
use pcm3060_kernelmodule.Kernel.Run.{Run, ok, fault}
use pcm3060_kernelmodule.Prelude.{◌-◌, none, some}
use pcm3060_kernelmodule.Kernel.Chardevs.{Chardevs}
use pcm3060_kernelmodule.Kernel.Platform.{neg32, KernelPtr, object}

-- `MINORMASK`
abbrev pub minormask : ℕ
minormask = 2 ^ 20 - 1

-- The major number in `_chrdev_pcm3060_dev`, `_chrdev_pcm3060_class`, the channels of the array's
-- entries, and what the kernel holds for the driver: the ranges of numbers, by their major number, first
-- minor number 0 and count; the classes that are registered; the entries' cdevs that are added; and the
-- nodes under /dev. The source ignores the codes of cdev_add and device_create, which are taken to
-- succeed.
pub record Registry : Type 0 where
  pub major : ℕ
  pub chrdev_class : KernelPtr
  pub channels : List ℕ
  pub regions : List (ℕ × ℕ)
  pub classes : List ℕ
  pub cdevs : List ℕ
  pub nodes : List ℕ

-- The loop of `chrdev_pcm3060_register`, from entry `i` on.
unfoldable pub add_devices : ℕ → ℕ → Registry → Registry
add_devices zero i g = g
add_devices (suc left) i g = add_devices left (i + 1) (record g {
  channels = g.channels ++ i ∷ [];
  cdevs = g.cdevs ++ i ∷ [];
  nodes = g.nodes ++ i ∷ [];
})

-- `chrdev_pcm3060_register`: the answers are those of alloc_chrdev_region, a negative code or not with
-- the major number, and of class_create, which is written through unchecked.
unfoldable pub chrdev_pcm3060_register : ℕ → ℕ → KernelPtr → Registry → Run (ℕ × Registry)
unfolding add_devices
chrdev_pcm3060_register code major class g =
    let g' = record g {
      major = major;
      regions = (major, nchannels) ∷ g.regions;
      chrdev_class = class;
    } in
    let rest : Run (ℕ × Registry) = elim class [
      | object p ↦
          ok (0, add_devices nchannels 0 (record g' { channels = []; classes = p ∷ g.classes }))
      | _ ↦ fault
    ] in
    if leb (2 ^ 31) code then ok (neg32 1, g) else rest

-- `device_destroy` of the node with a number
unfoldable pub without : ℕ → List ℕ → List ℕ
without i [] = []
without i (n ∷ ns) = let rest = without i ns in if n == i then rest else n ∷ rest

-- The loop of `chrdev_pcm3060_unregister`, from node `i` on.
unfoldable pub destroy_nodes : ℕ → ℕ → List ℕ → List ℕ
unfolding without
destroy_nodes zero i nodes = nodes
destroy_nodes (suc left) i nodes = destroy_nodes left (i + 1) (without i nodes)

-- `chrdev_pcm3060_unregister`: class_unregister reads through the pointer, and class_destroy gives the
-- same class back again. No cdev is removed, and the class pointer stays.
unfoldable pub chrdev_pcm3060_unregister : Chardevs → Registry → Run Registry
unfolding destroy_nodes
chrdev_pcm3060_unregister ch g =
    let nodes = destroy_nodes nchannels 0 g.nodes in
    elim g.chrdev_class [
      | object p ↦ elim (ch.class_unregister p g.classes) [
        | none ↦ fault
        | some once ↦ elim (ch.class_destroy p once) [
          | none ↦ fault
          | some twice ↦ ok (record g {
            nodes = nodes;
            classes = twice;
            regions = ch.unregister_chrdev_region g.major minormask g.regions;
          })
        ]
      ]
      | _ ↦ fault
    ]

-- `_pcm3060_module_init` and `_pcm3060_module_exit`
unfoldable pub module_init : ℕ → ℕ → KernelPtr → Registry → Run (ℕ × Registry)
module_init = chrdev_pcm3060_register

unfoldable pub module_exit : Chardevs → Registry → Run Registry
module_exit = chrdev_pcm3060_unregister
