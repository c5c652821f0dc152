-- ===== src/Memory/Copy.antt =====
-- `memcpy`, `memset` and the reading of words of lib.c and filesystem.h, with their pointwise laws.
use light_os_a_linus_like_os.Common.{
  ℕ, zero, suc, ◌+◌, ◌-◌, ◌*◌, ◌%◌, ◌≡◌, ◌&&◌, ltb, leb, ◌==◌, if◌then◌else◌, arith,
}

-- The bytes from a pointer on.
abbrev pub Bytes : Type 0
Bytes = ℕ → ℕ

abbrev pub update : Bytes → ℕ → ℕ → Bytes
update m p v q = if p == q then v else m q

-- A pointer moved forward by `k` bytes.
abbrev pub offset_by : ℕ → Bytes → Bytes
offset_by k m i = m (k + i)

-- A `uint32_t` in memory, least significant byte first.
abbrev pub load32 : Bytes → ℕ → ℕ
load32 m p = m p + 256 * m (p + 1) + 65536 * m (p + 2) + 16777216 * m (p + 3)

-- Copies `n` bytes of `src` from `s` on to `dest` from `d` on.
unfoldable pub memcpy : ℕ → ℕ → ℕ → Bytes → Bytes → Bytes
memcpy zero d s src dest = dest
memcpy (suc n) d s src dest = memcpy n (suc d) (suc s) src (update dest d (src s))

-- Sets `n` bytes of `dest` from `d` on to the low byte of `c`.
unfoldable pub memset : ℕ → ℕ → ℕ → Bytes → Bytes
memset zero d c dest = dest
memset (suc n) d c dest = memset n (suc d) c (update dest d (c % 256))

-- `memcpy` leaves the `n` bytes of the source in the target, and every other byte as it was.
pub memcpy_lem :
    (n d s : ℕ) (src dest : Bytes) (i : ℕ)
    → memcpy n d s src dest i ≡ (if leb d i && ltb i (d + n) then src (s + (i - d)) else dest i)
unfolding memcpy
memcpy_lem zero d s src dest i = ground arith
memcpy_lem (suc n) d s src dest i =
    ground (arith, memcpy_lem n (suc d) (suc s) src (update dest d (src s)) i)

-- `memset` leaves the low byte of `c` in the `n` bytes of the target, and every other byte as it
-- was.
pub memset_lem :
    (n d c : ℕ) (dest : Bytes) (i : ℕ)
    → memset n d c dest i ≡ (if leb d i && ltb i (d + n) then c % 256 else dest i)
unfolding memset
memset_lem zero d c dest i = ground arith
memset_lem (suc n) d c dest i = ground (arith, memset_lem n (suc d) c (update dest d (c % 256)) i)
