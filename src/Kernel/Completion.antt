-- ===== src/Kernel/Completion.antt =====
-- The completion of the kernel: a count of the waits that may pass, or a mark that all may.
use pcm3060_kernelmodule.Prelude.{ℕ, suc, Bool, ◌-◌, ◌^◌, ◌==◌, if◌then◌else◌}
use pcm3060_kernelmodule.Kernel.Run.{Run, ok, blocked}

-- `done` of `struct completion`: its largest value is the mark.
abbrev pub Completion : Type 0
Completion = ℕ

abbrev pub all_done : Completion
all_done = 2 ^ 32 - 1

abbrev pub init_completion : Completion
init_completion = 0

abbrev pub complete : Completion → Completion
complete c = if c == all_done then c else suc c

abbrev pub complete_all : Completion → Completion
complete_all c = all_done

-- What a wait that ends leaves: it uses up one `complete`, but not a `complete_all`.
abbrev pub taken : Completion → Completion
taken c = if c == all_done then c else c - 1

-- A wait that a signal does not end.
unfoldable pub wait_for_completion : Completion → Run Completion
wait_for_completion c = if c == 0 then blocked else ok (taken c)

-- A wait that a fatal signal ends; the flag says whether one comes.
unfoldable pub wait_for_completion_killable : Bool → Completion → Run Completion
wait_for_completion_killable killed c =
    if c == 0 then (if killed then ok c else blocked) else ok (taken c)
