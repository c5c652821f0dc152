-- ===== src/Printf.antt =====
-- `puts` and `printf` of student-distrib/lib.c, over the `putc` of the scheduled terminal.
pub mod Texts
pub mod Conversions
pub mod Pieces
pub mod Format
pub mod Returns
pub mod Bounds
use light_os_a_linus_like_os.Common.{
  ℕ, zero, suc, ◌+◌, ◌-◌, ◌^◌, u32, Option, none, some, ◌>>=◌, ltb, leb, ◌==◌, ◌||◌, ◌%◌,
  if◌then◌else◌,
}
use light_os_a_linus_like_os.Memory.{Bytes, update, offset_by}
use light_os_a_linus_like_os.CString.{strlen}
use light_os_a_linus_like_os.Kernel.{Kernel}
use light_os_a_linus_like_os.Console.{putc}
use light_os_a_linus_like_os.Number.{itoa}

-- The loop of `puts`. `fuel` bounds the rounds; it is the number of addresses that are left. `none`
-- is a loop that does not end: no NUL stands behind the pointer.
unfoldable pub puts_from : ℕ → Bytes → ℕ → Kernel → Option (ℕ × Kernel)
puts_from zero s index k = none
puts_from (suc fuel) s index k =
    let rest = puts_from fuel s (suc index) (putc (s index) k) in
    if s index == 0 then some (index, k) else rest

unfoldable pub puts : Bytes → Kernel → Option (ℕ × Kernel)
unfolding puts_from
puts s k = puts_from u32 s 0 k

-- `itoa(value, &conv_buf[at], radix)`: the bytes before `at` are kept.
abbrev pub itoa_at : ℕ → ℕ → Bytes → ℕ → Option Bytes
itoa_at at value conv_buf radix = do
  s ← itoa value (offset_by at conv_buf) radix
  some (λ i. if ltb i at then conv_buf i else s (i - at))

-- The loop `while (i < 8)` of `%#x`, with `rounds` left.
unfoldable pub fill_from : ℕ → ℕ → Bytes → Bytes
fill_from zero i conv_buf = conv_buf
fill_from (suc rounds) i conv_buf = fill_from rounds (suc i) (update conv_buf i b'0')

-- What a conversion of a number hands to `puts`. Here and below `conv_buf` is what the stack holds
-- before the conversion, and `value` the word of the argument.
unfoldable pub hex : ℕ → Bytes → Option Bytes
hex value conv_buf = itoa value conv_buf 16

-- `starting_index`, and `conv_buf` when the zeros are in it.
unfoldable pub padded_buffer : ℕ → Bytes → Option (ℕ × Bytes)
unfolding fill_from
padded_buffer value conv_buf = do
  s ← itoa_at 8 value conv_buf 16
  some (
      let starting_index = strlen (offset_by 8 s) in
      (starting_index, fill_from (8 - starting_index) starting_index s))

unfoldable pub padded_hex : ℕ → Bytes → Option Bytes
unfolding padded_buffer
padded_hex value conv_buf = do r ← padded_buffer value conv_buf; some (offset_by (r.0) (r.1))

unfoldable pub unsigned : ℕ → Bytes → Option Bytes
unsigned value conv_buf = itoa value conv_buf 10

-- `value < 0` on the word is its top bit, and `-value` wraps around.
unfoldable pub signed : ℕ → Bytes → Option Bytes
signed value conv_buf =
    if leb (2 ^ 31) value
    then itoa_at 1 (u32 - value) (update conv_buf 0 b'-') 10
    else itoa value conv_buf 10

-- One call of `printf`: its format, the words that stand on the stack behind it, what stands behind
-- a pointer, and what `conv_buf` holds when the conversion at an index of the format starts.
module _ (format : Bytes) (args : ℕ → ℕ) (string_at : ℕ → Bytes) (conv_buf : ℕ → Bytes) where
  -- `format_char_switch` with its `goto`: every '#' sets `alternate` and is passed over. The result
  -- is `alternate` and the index of the conversion's character.
  unfoldable pub skip_hashes : ℕ → ℕ → ℕ → ℕ × ℕ
  skip_hashes zero alternate i = (alternate, i)
  skip_hashes (suc fuel) alternate i =
      let rest = skip_hashes fuel 1 (suc i) in if format i == b'#' then rest else (alternate, i)

  unfoldable pub put_text : ℕ → Kernel → Option Bytes → Option (ℕ × Kernel)
  put_text esp k text = do s ← text; r ← puts s k; some (suc esp, r.1)

  -- The other cases of the inner switch, at the conversion character `format i`. The result is
  -- `esp`, as an index into `args`, and the kernel.
  unfoldable pub convert : ℕ → ℕ → ℕ → Kernel → Option (ℕ × Kernel)
  convert alternate i esp k =
      let c = format i in
      if c == b'%'
      then some (esp, putc b'%' k)
      else if c == b'x'
      then put_text esp k (
          if alternate == 0
          then hex (args esp) (conv_buf i)
          else padded_hex (args esp) (conv_buf i))
      else if c == b'u'
      then put_text esp k (unsigned (args esp) (conv_buf i))
      else if c == b'd'
      then put_text esp k (signed (args esp) (conv_buf i))
      else if c == b'c'
      then some (suc esp, putc (args esp % 256) k)
      else if c == b's'
      then put_text esp k (some (string_at (args esp)))
      else some (esp, k)

  -- The loop over the format. As in the source, a conversion that the format's NUL cuts off passes
  -- over the NUL. `none` is a loop that does not end, here or in `puts`, or a fault of `itoa`.
  unfoldable pub printf_from : ℕ → ℕ → ℕ → Kernel → Option (ℕ × Kernel)
  printf_from zero i esp k = none
  printf_from (suc fuel) i esp k =
      let (alternate, j) = skip_hashes u32 0 (suc i) in
      let rest = λ (j : ℕ) (r : ℕ × Kernel). printf_from fuel (suc j) r.0 r.1 in
      if format i == 0
      then some (i, k)
      else if format i == b'%'
      then (do r ← convert alternate j esp k; rest j r)
      else rest i (esp, putc (format i) k)

  unfoldable pub printf : Kernel → Option (ℕ × Kernel)
  unfolding printf_from
  printf k = printf_from u32 0 0 k
