-- ===== src/TerminalDriver/Lines.antt =====
-- The line buffer of keyboard.c and terminal.c, key by key.
use light_os_a_linus_like_os.Common.{ℕ, ◌+◌, ◌<◌, ◌≡◌, some, set, ◌==◌, if◌then◌else◌, arith}
use light_os_a_linus_like_os.Kernel.{Terminal}
use light_os_a_linus_like_os.Keyboard.Handler.{store_key}

-- The terminal with a key at the end of its line. Enter ends the wait.
abbrev pub append_key : ℕ → Terminal → Terminal
append_key key t = record t {
  key_buf = set t.key_buf t.keyboard_buffer_size key;
  keyboard_buffer_size = t.keyboard_buffer_size + 1;
  keyboard_buffer_enable = if key == b'\n' then 0 else 1;
}

pub store_key-append_key :
    (key : ℕ) (t : Terminal)
    → t.keyboard_buffer_size < 128
    → t.keyboard_buffer_enable ≡ 1
    → store_key key t ≡ some (append_key key t)
unfolding store_key
store_key-append_key key t room e = ground arith
