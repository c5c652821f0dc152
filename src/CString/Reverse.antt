-- ===== src/CString/Reverse.antt =====
-- `strrev` of lib.c.
pub mod Twice
use light_os_a_linus_like_os.Common.{ℕ, zero, suc, ◌-◌, ltb, if◌then◌else◌}
use light_os_a_linus_like_os.Memory.{Bytes, update}
use light_os_a_linus_like_os.CString.{strlen}

-- The loop, with the two indices `beg` and `end`.
reverse_from : ℕ → ℕ → ℕ → Bytes → Bytes
reverse_from zero beg end s = s
reverse_from (suc rounds) beg end s =
    let rest =
      reverse_from rounds (suc beg) (end - 1) (update (update s end (s beg)) beg (s end)) in
    if ltb beg end then rest else s

-- The loop runs at most once for each character. On the empty string `end` is -1 there and 0
-- here, and neither is above `beg`.
pub strrev : Bytes → Bytes
unfolding reverse_from
strrev s = reverse_from (strlen s) 0 (strlen s - 1) s
