-- ===== src/TerminalDriver/Typing/Codes.antt =====
-- keyboard.c's handler, for a code that belongs to a line that is typed.
use mathlib.Core.Path.{subst}
use light_os_a_linus_like_os.Common.{
  ℕ, ◌<◌, ◌≡◌, refl, ◌≢◌, inl, inr, sym, ◌∙◌, some, List, [], ◌∷◌, ◌++◌, length, ltb, ◌==◌, ==_no,
  lt→ltb, if◌then◌else◌, false, arith,
}
use light_os_a_linus_like_os.Kernel.{Kernel}
use light_os_a_linus_like_os.Console.{}
use light_os_a_linus_like_os.I8259.{send_eoi}
use light_os_a_linus_like_os.Keyboard.{key_of}
use light_os_a_linus_like_os.Keyboard.Handler.{handle_input, press_backspace, keyboard_handler}
use light_os_a_linus_like_os.TerminalDriver.Typing.{IsPlain, Typing, keyboard_handler-Typing}
use light_os_a_linus_like_os.TerminalDriver.Typing.Edits.{
  shorten, edit, IsSilent, IsTyped, press_backspace-Typing,
}

-- The end of the handler changes nothing of the line.
acknowledged :
    {o : ℕ} (line : List ℕ) (k : Kernel)
    → Typing o line 1 k
    → Typing o line 1 (send_eoi 1 k) × ((other : ℕ) → key_of other (send_eoi 1 k) ≡ key_of other k)
unfolding send_eoi key_of
acknowledged line k t = (
  record {
    scheduled = t.scheduled;
    no_control = t.no_control;
    enabled = t.enabled;
    overflows = t.overflows;
    counts = t.counts;
    buffer = t.buffer;
    typed = t.typed;
  },
  λ other. refl,
)

handles :
    (input : ℕ) (k k' : Kernel)
    → handle_input input k ≡ some k'
    → keyboard_handler input k ≡ some (send_eoi 1 k')
unfolding keyboard_handler
handles input k k' e = rw e refl

handle_input-silent : (input : ℕ) (k : Kernel) → IsSilent input → handle_input input k ≡ some k
unfolding handle_input
handle_input-silent input k s = ground (
  arith, s.behind_table, s.no_f1, s.no_f2, s.no_f3, s.no_ctrl, s.no_left_shift, s.no_right_shift,
  s.no_alt,
)

handle_input-backspace :
    (input : ℕ) (k : Kernel) → input ≡ 0x0E → handle_input input k ≡ some (press_backspace k)
unfolding handle_input
handle_input-backspace input k e = rw e refl

pub edit-plain :
    (keys : ℕ → ℕ) (line : List ℕ) (input : ℕ)
    → IsPlain input
    → edit keys line input ≡ line ++ (keys input ∷ [])
edit-plain keys line input p = rw (==_no input 0x0E p.no_backspace, lt→ltb input 58 p.in_table) refl

pub edit-silent :
    (keys : ℕ → ℕ) (line : List ℕ) (input : ℕ) → IsSilent input → edit keys line input ≡ line
edit-silent keys line input s =
    let other : (input == 0x0E) ≡ false = ==_no input 0x0E (omega (arith, s.behind_table)) in
    let behind : ltb input 58 ≡ false = ground (arith, s.behind_table) in rw (other, behind) refl

-- What the handler makes of the line and of the keyboard's state.
abbrev pub Goes : (ℕ → ℕ) → ℕ → List ℕ → ℕ → Kernel → Type 0
Goes keys o line input k =
    (k' : Kernel) × (keyboard_handler input k ≡ some k')
    × Typing o (edit keys line input) 1 k'
    × ((other : ℕ) → key_of other k' ≡ keys other)

plain-Goes :
    {o : ℕ} (keys : ℕ → ℕ) (line : List ℕ) (input : ℕ) (k : Kernel)
    → IsPlain input
    → keys input ≢ b'\n'
    → length line < 128
    → ((other : ℕ) → key_of other k ≡ keys other)
    → Typing o line 1 k
    → Goes keys o line input k
plain-Goes {o} keys line input k p ne room same t =
    let (k', e, t', same') = keyboard_handler-Typing input line k p t room in
    (
      k',
      e,
      subst (λ l. Typing o l 1 k') (sym (edit-plain keys line input p))
          (subst (λ w. Typing o (line ++ (keys input ∷ [])) w k') (still (keys input) ne)
            (subst (λ key. Typing o (line ++ (key ∷ [])) (if key == b'\n' then 0 else 1) k')
              (same input) t')),
      λ other. same' other ∙ same other,
    )
  where
    waits : ℕ → ℕ
    waits key = if key == b'\n' then 0 else 1

    still : (key : ℕ) → key ≢ b'\n' → waits key ≡ 1
    still key h = ground arith

-- The handler, for a code that belongs to the line.
pub typed-Goes :
    {o : ℕ} (keys : ℕ → ℕ) (line : List ℕ) (input : ℕ) (k : Kernel)
    → IsTyped keys o line input
    → ((other : ℕ) → key_of other k ≡ keys other)
    → Typing o line 1 k
    → Goes keys o line input k
typed-Goes keys line input k (inl (p, ne, room)) same t =
    plain-Goes keys line input k p ne room same t
typed-Goes {o} keys line input k (inr (inl (e, z))) same t =
    let (t', same') = press_backspace-Typing line k t z in
    let (t2, same2) = acknowledged (shorten line) (press_backspace k) t' in
    (
      send_eoi 1 (press_backspace k),
      handles input k (press_backspace k) (handle_input-backspace input k e),
      subst (λ i. Typing o (edit keys line i) 1 (send_eoi 1 (press_backspace k))) (sym e) t2,
      λ other. same2 other ∙ same' other ∙ same other,
    )
typed-Goes {o} keys line input k (inr (inr s)) same t =
    let (t', same') = acknowledged line k t in
    (
      send_eoi 1 k,
      handles input k k (handle_input-silent input k s),
      subst (λ l. Typing o l 1 (send_eoi 1 k)) (sym (edit-silent keys line input s)) t',
      λ other. same' other ∙ same other,
    )
