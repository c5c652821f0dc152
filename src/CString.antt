-- ===== src/CString.antt =====
-- lib.c's string functions over NUL-terminated strings.
pub mod Reverse
pub mod Length
pub mod Compare
pub mod Copies
use light_os_a_linus_like_os.Common.{
  ℕ, zero, suc, ◌+◌, ℤ, pos, sub_ℕ, u32, not, ◌||◌, ltb, leb, ◌==◌, if◌then◌else◌,
}
use light_os_a_linus_like_os.Memory.{Bytes, update}

-- The loop of `strlen`. `fuel` bounds the rounds; it is the number of addresses that are left.
strlen_from : ℕ → Bytes → ℕ → ℕ
strlen_from zero s len = len
strlen_from (suc fuel) s len =
    let rest = strlen_from fuel s (suc len) in if s len == 0 then len else rest

-- A string with no NUL in the whole address space, which the C loop would scan for ever, gets 2^32.
pub strlen : Bytes → ℕ
unfolding strlen_from
strlen s = strlen_from u32 s 0

-- `a - b` for two `int8_t`, given by their bit patterns.
abbrev pub int8_diff : ℕ → ℕ → ℤ
int8_diff a b = sub_ℕ (a + (if leb 128 b then 256 else 0)) (b + (if leb 128 a then 256 else 0))

-- The loop of `strncmp` with `rounds` comparisons left.
strncmp_from : ℕ → Bytes → Bytes → ℕ → ℤ
strncmp_from zero s1 s2 i = pos 0
strncmp_from (suc rounds) s1 s2 i =
    let rest = strncmp_from rounds s1 s2 (suc i) in
    if not (s1 i == s2 i) || s1 i == 0 then int8_diff (s1 i) (s2 i) else rest

unfoldable pub strncmp : Bytes → Bytes → ℕ → ℤ
unfolding strncmp_from
strncmp s1 s2 n = strncmp_from n s1 s2 0

-- The loop of `strcpy` from index `i` on, with the same fuel as `strlen`.
strcpy_from : ℕ → Bytes → Bytes → ℕ → Bytes
strcpy_from zero dest src i = dest
strcpy_from (suc fuel) dest src i =
    let rest = strcpy_from fuel (update dest i (src i)) src (suc i) in
    if src i == 0 then update dest i 0 else rest

pub strcpy : Bytes → Bytes → Bytes
unfolding strcpy_from
strcpy dest src = strcpy_from u32 dest src 0

-- The second loop of `strncpy`, which fills up with NULs.
pad_from : ℕ → Bytes → ℕ → Bytes
pad_from zero dest i = dest
pad_from (suc rounds) dest i = pad_from rounds (update dest i 0) (suc i)

-- Both loops of `strncpy`, with `rounds` bytes of `dest` left to write.
strncpy_from : ℕ → Bytes → Bytes → ℕ → Bytes
unfolding pad_from
strncpy_from zero dest src i = dest
strncpy_from (suc rounds) dest src i =
    let rest = strncpy_from rounds (update dest i (src i)) src (suc i) in
    if src i == 0 then pad_from (suc rounds) dest i else rest

pub strncpy : Bytes → Bytes → ℕ → Bytes
unfolding strncpy_from
strncpy dest src n = strncpy_from n dest src 0
