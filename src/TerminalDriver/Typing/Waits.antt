-- ===== src/TerminalDriver/Typing/Waits.antt =====
-- The wait of `terminal_read` of terminal.c, while keyboard.c's handler is called.
use mathlib.Core.Path.{subst}
use light_os_a_linus_like_os.Common.{
  ℕ, ◌<◌, ◌≡◌, refl, ap, ◌∙◌, some, List, [], ◌∷◌, ◌++◌, length, true, false, ◌==◌, if◌then◌else◌,
  arith,
}
use light_os_a_linus_like_os.Kernel.{Kernel}
use light_os_a_linus_like_os.Keyboard.{key_of}
use light_os_a_linus_like_os.Keyboard.Handler.{keyboard_handler}
use light_os_a_linus_like_os.TerminalDriver.{ready, wait_line}
use light_os_a_linus_like_os.TerminalDriver.Typing.{IsPlain, Typing, keyboard_handler-Typing}
use light_os_a_linus_like_os.TerminalDriver.Typing.Edits.{edit, edited, AllTyped}
use light_os_a_linus_like_os.TerminalDriver.Typing.Codes.{typed-Goes}

abbrev waits : ℕ → ℕ
waits key = if key == b'\n' then 0 else 1

is_one : (b : ℕ) → b ≡ 1 → (b == 1) ≡ true
is_one b h = ground arith

is_zero : (b : ℕ) → b ≡ 0 → (b == 1) ≡ false
is_zero b h = ground arith

active-enabled :
    {o : ℕ} {line : List ℕ} {w : ℕ} (k : Kernel)
    → Typing o line w k
    → (k.terminals k.active_terminal).keyboard_buffer_enable ≡ w
active-enabled k t = ap (λ i. (k.terminals i).keyboard_buffer_enable) t.scheduled ∙ t.enabled

wait-step :
    {o : ℕ} (input : ℕ) (inputs line : List ℕ) (k k' : Kernel)
    → Typing o line 1 k
    → keyboard_handler input k ≡ some k'
    → wait_line (input ∷ inputs) k ≡ wait_line inputs k'
unfolding wait_line
wait-step input inputs line k k' t h = rw (is_one _ (active-enabled k t), h) refl

wait-stop :
    {o : ℕ} (inputs line : List ℕ) (k : Kernel)
    → Typing o line 0 k
    → wait_line inputs k ≡ ready k inputs
unfolding wait_line
wait-stop [] line k t = rw (is_zero _ (active-enabled k t)) refl
wait-stop (input ∷ inputs) line k t = rw (is_zero _ (active-enabled k t)) refl

-- The wait ends at Enter, with the edited line in the line buffer.
pub wait_line-Typing :
    {o : ℕ} (keys : ℕ → ℕ) (enter : ℕ) (inputs rest line : List ℕ) (k : Kernel)
    → ((other : ℕ) → key_of other k ≡ keys other)
    → IsPlain enter
    → keys enter ≡ b'\n'
    → AllTyped keys o line inputs
    → Typing o line 1 k
    → length (edited keys line inputs) < 128
    → (k' : Kernel) × (wait_line (inputs ++ (enter ∷ rest)) k ≡ ready k' rest)
      × Typing o (edited keys line inputs ++ (b'\n' ∷ [])) 0 k'
wait_line-Typing {o} keys enter [] rest line k same p e all t room =
    let (k', h, t', same') = keyboard_handler-Typing enter line k p t room in
    let done : Typing o (line ++ (b'\n' ∷ [])) 0 k' =
      subst (λ key. Typing o (line ++ (key ∷ [])) (waits key) k') (same enter ∙ e) t' in
    (k', wait-step enter rest line k k' t h ∙ wait-stop rest (line ++ (b'\n' ∷ [])) k' done, done)
wait_line-Typing {o} keys enter (input ∷ inputs) rest line k same p e (one, all) t room =
    let (k', h, t', same') = typed-Goes keys line input k one same t in
    let (k2, h2, t2) =
      wait_line-Typing keys enter inputs rest (edit keys line input) k' same' p e all t' room in
    (k2, wait-step input (inputs ++ (enter ∷ rest)) line k k' t h ∙ h2, t2)
