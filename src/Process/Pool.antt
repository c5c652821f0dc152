-- ===== src/Process/Pool.antt =====
-- The process pool of syscall.c: `processes[pid]` is 1 while process `pid` exists.
pub mod Free
use light_os_a_linus_like_os.Common.{
  ℕ, zero, suc, ◌+◌, ℤ, pos, negsuc, failure, Option, none, some, List, get_or, set, leb, ◌==◌,
  if◌then◌else◌,
}
use light_os_a_linus_like_os.Kernel.{Kernel}

-- The loop of `get_process_available` with `rounds` entries left from `i` on.
free_from : ℕ → ℕ → List ℕ → Option ℕ
free_from zero i processes = none
free_from (suc rounds) i processes =
    let rest = free_from rounds (suc i) processes in
    if get_or processes i 1 == 0 then some i else rest

-- `none` is the result -1.
abbrev pub claim : Option ℕ → Kernel → Option ℕ × Kernel
claim none k = (none, k)
claim (some i) k = (some i, record k { processes = set k.processes i 1 })

unfoldable pub get_process_available : Kernel → Option ℕ × Kernel
unfolding free_from
get_process_available k = claim (free_from 7 0 k.processes) k

unfoldable pub release_process : ℤ → Kernel → ℤ × Kernel
release_process (negsuc n) k = (failure, k)
release_process (pos pid) k =
    if leb 7 pid then (failure, k) else (pos 0, record k { processes = set k.processes pid 0 })
