-- ===== src/Entry/Boots.antt =====
-- kernel.c's `entry` from the boot loader to the first processes.
use light_os_a_linus_like_os.Common.{ℕ, List, ◌≡◌}
use light_os_a_linus_like_os.Kernel.{Kernel}
use light_os_a_linus_like_os.Console.{put_all, clear}
use light_os_a_linus_like_os.Console.Keeps.{Keeps}
use light_os_a_linus_like_os.Entry.{unpaged}

-- The kernel that has cleared the screen and printed characters, and done nothing else; pages stood
-- for themselves meanwhile.
abbrev pub HasPrinted : Kernel → Kernel → Type 0
HasPrinted k k' =
    (out : List ℕ) × (k' ≡ record (put_all out (clear (unpaged k))) { pg_tab_1 = k.pg_tab_1 })
