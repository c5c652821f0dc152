-- ===== src/Process/Calls/Video.antt =====
-- `syscall_vidmap` of syscall.c: the screen in the user's address space.
use light_os_a_linus_like_os.Common.{
  ==_self, ℕ, ◌+◌, ◌/◌, ◌%◌, ◌^◌, ◌≤◌, ◌<◌, ◌≡◌, refl, ◌≢◌, ◌||◌, false, ◌⊎◌, pos, failure, some,
  none, ◌==◌, ltb, arith,
}
use light_os_a_linus_like_os.Kernel.{Pcb, set_pcb, Kernel}
use light_os_a_linus_like_os.Paging.{Layout, syscall_enable_vidmap_paging, frame}
use light_os_a_linus_like_os.Paging.Maps.{translate}
use light_os_a_linus_like_os.Process.Calls.{syscall_vidmap}

in_range :
    (p : ℕ) → 0x8000000 ≤ p → p ≤ 0x8400000 → (p == 0 || ltb p 0x8000000 || ltb 0x8400000 p) ≡ false
in_range p lo hi = ground arith

frames_differ : (a b : ℕ) → a ≢ b → (b == a) ≡ false
frames_differ a b h = ground arith

vidmap-translate :
    (layout : Layout) (k : Kernel) (o : ℕ)
    → frame layout.pg_tab_1_address ≢ frame layout.vidmap_pg_tab_1_address
    → o < 4096
    → translate layout (syscall_enable_vidmap_paging layout k) (0x8400000 + o) ≡ some (0xB8000 + o)
unfolding syscall_enable_vidmap_paging
vidmap-translate layout k o d h =
    let e : (0x8400000 + o) / 2 ^ 22 ≡ 33 = omega arith in
    let f : (0x8400000 + o) / 4096 % 1024 ≡ 0 = omega arith in
    let g : (0x8400000 + o) % 4096 ≡ o = omega arith in
    rw (e, f, g, frames_differ _ _ d) (ground arith)

-- The first page behind 0x8400000 is there for user programs, which may write to it: both the entry
-- of the page directory and that of the page table say so.
abbrev pub IsUserPage : Kernel → Type 0
IsUserPage k =
    let d = k.page_dir (0x8400000 / 2 ^ 22) in
    let e = k.vidmap_pg_tab_1 0 in
    (d.present ≡ 1)
    × (d.write_read ≡ 1)
    × (d.u_s ≡ 1)
    × (e.present ≡ 1)
    × (e.write_read ≡ 1)
    × (e.u_s ≡ 1)

vidmap-IsUserPage :
    (layout : Layout) (k : Kernel) → IsUserPage (syscall_enable_vidmap_paging layout k)
unfolding syscall_enable_vidmap_paging
vidmap-IsUserPage layout k = (refl, refl, refl, refl, refl, refl)

marked :
    (layout : Layout) (pid : ℕ) (p : Pcb) (k : Kernel)
    → ((syscall_enable_vidmap_paging layout (set_pcb pid p k)).pcbs pid).vidmap_flag ≡ p.vidmap_flag
unfolding syscall_enable_vidmap_paging
marked layout pid p k = rw (==_self pid) refl

-- With a pointer from 128 MB to 132 MB, `syscall_vidmap` stores and returns the address 0x8400000,
-- behind which the 4096 bytes of the shown screen then stand, even if the terminal of the process is
-- not the one that is shown: the page is present, and user programs may read and write it. The
-- process is marked as one that maps the screen. With any other pointer `syscall_vidmap` fails and
-- changes nothing. The two page tables are taken to
-- stand in different pages.
pub syscall_vidmap_lem :
    (layout : Layout) (screen_start : ℕ) (k : Kernel)
    → frame layout.pg_tab_1_address ≢ frame layout.vidmap_pg_tab_1_address
    → (0x8000000 ≤ screen_start
        → screen_start ≤ 0x8400000
        → (k' : Kernel) × (syscall_vidmap layout screen_start k
            ≡ (pos 0x8400000, some 0x8400000, k'))
          × ((o : ℕ) → o < 4096 → translate layout k' (0x8400000 + o) ≡ some (0xB8000 + o))
          × IsUserPage k'
          × ((k'.pcbs k.active_pid).vidmap_flag ≡ 1))
      × ((screen_start < 0x8000000) ⊎ (0x8400000 < screen_start)
          → syscall_vidmap layout screen_start k ≡ (failure, none, k))
unfolding syscall_vidmap
syscall_vidmap_lem layout screen_start k d =
    let p = k.pcbs k.active_pid in
    let k1 = set_pcb k.active_pid (record p { vidmap_flag = 1 }) k in
    (
      λ lo hi. (
        syscall_enable_vidmap_paging layout k1,
        rw (in_range screen_start lo hi) refl,
        λ o h. vidmap-translate layout k1 o d h,
        vidmap-IsUserPage layout k1,
        marked layout k.active_pid (record p { vidmap_flag = 1 }) k,
      ),
      λ h. ground arith,
    )
