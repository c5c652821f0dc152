-- ===== src/Entry/Ready.antt =====
-- The machine that kernel.c's `entry` leaves is ready for the timer, the keyboard and the console.
use Prim.Native.Nat.{zero-le}
use mathlib.Core.Path.{subst}
use light_os_a_linus_like_os.Common.{
  ℕ, ◌≡◌, refl, ap, sym, ◌∙◌, Option, List, [], ◌∷◌, true, length, arith,
}
use light_os_a_linus_like_os.Memory.{Bytes}
use light_os_a_linus_like_os.Kernel.{
  TerminalId, terminal_1, terminal_2, terminal_3, Terminal, Pte, Kernel, physical,
}
use light_os_a_linus_like_os.Console.{video_mem, emit, putc, put_all, clear}
use light_os_a_linus_like_os.Console.Emit.{IsOnScreen, emit-IsOnScreen}
use light_os_a_linus_like_os.Console.Fields.{move, emit-OnlyMoves}
use light_os_a_linus_like_os.Console.Keeps.{Keeps, put_all-Keeps, clear-Keeps}
use light_os_a_linus_like_os.Paging.Maps.{
  HasFrames, IsRouted, page_initialize-HasFrames, page_initialize-terminals,
}
use light_os_a_linus_like_os.Keyboard.Handler.Keeps.{
  IsSound, AllSound, OnlyMoves-IsSound, set_terminal-AllSound,
}
use light_os_a_linus_like_os.Process.Boot.Keeps.{KeepsIdle, shells-KeepsIdle}
use light_os_a_linus_like_os.Process.Schedule.Turns.{process_of}
use light_os_a_linus_like_os.I8259.{i8259_init, enable_irq}
use light_os_a_linus_like_os.Keyboard.{keyboard_init}
use light_os_a_linus_like_os.Rtc.{rtc_enable_pie}
use light_os_a_linus_like_os.Process.Schedule.{pit_init}
use light_os_a_linus_like_os.Entry.{Image, initialize, start}

-- All that the theorems on the running kernel ask of its state.
pub record IsPrepared (k : Kernel) : Type 0 where
  pub frames : HasFrames k
  pub routed : IsRouted k
  pub sound : AllSound k
  pub all_idle : (i : TerminalId) → process_of k i ≡ 0
  pub privileged : k.esp0 ≡ 0x800000

-- Printing keeps the terminals sound.
putc-AllSound : (c : ℕ) (k : Kernel) → AllSound k → AllSound (putc c k)
unfolding putc
putc-AllSound c k all =
    let t = k.terminals k.active_terminal in
    let base = physical k video_mem in
    set_terminal-AllSound k.active_terminal (emit base c (t, k.memory)).0 k
      (OnlyMoves-IsSound t _ (all k.active_terminal) (emit-OnlyMoves base c t k.memory)
        (emit-IsOnScreen base c t k.memory (all k.active_terminal).on))
      all

put_all-AllSound : (cs : List ℕ) (k : Kernel) → AllSound k → AllSound (put_all cs k)
unfolding put_all
put_all-AllSound [] k all = all
put_all-AllSound (c ∷ cs) k all = put_all-AllSound cs (putc c k) (putc-AllSound c k all)

clear-AllSound : (k : Kernel) → AllSound k → AllSound (clear k)
unfolding clear
clear-AllSound k all =
    set_terminal-AllSound k.active_terminal (move 0 0 (k.terminals k.active_terminal)) k
      (OnlyMoves-IsSound (k.terminals k.active_terminal) _ (all k.active_terminal) refl
        (record { column = omega arith; row = omega arith; below = λ e. refl }))
      all

Keeps-IsPrepared : (k k' : Kernel) → Keeps k k' → AllSound k' → IsPrepared k → IsPrepared k'
Keeps-IsPrepared k k' h sound p = record {
  frames = record {
    direct = rw h.table p.frames.direct;
    backing = λ i. rw h.table (p.frames.backing i);
    numbered = λ i. ap (λ (t : Terminal). t.terminal_id) (h.terminals i) ∙ p.frames.numbered i;
    addressed = λ i. ap (λ (t : Terminal). t.video_address) (h.terminals i) ∙ p.frames.addressed i;
  };
  routed = rw (h.table, h.active, h.current) p.routed;
  sound = sound;
  all_idle = λ i. ap (λ (t : Terminal). t.current_process_id) (h.terminals i) ∙ p.all_idle i;
  privileged = h.stack ∙ p.privileged;
}

pub put_all-IsPrepared : (cs : List ℕ) (k : Kernel) → IsPrepared k → IsPrepared (put_all cs k)
put_all-IsPrepared cs k p =
    Keeps-IsPrepared k (put_all cs k) (put_all-Keeps cs k) (put_all-AllSound cs k p.sound) p

pub clear-IsPrepared : (k : Kernel) → IsPrepared k → IsPrepared (clear k)
clear-IsPrepared k p = Keeps-IsPrepared k (clear k) (clear-Keeps k) (clear-AllSound k p.sound) p

idle-IsSound :
    (t u : Terminal)
    → record u { current_process_id = 0 } ≡ record t { current_process_id = 0 }
    → IsSound t
    → IsSound u
idle-IsSound t u e s =
    let x : u.screen_x ≡ t.screen_x = ap (λ (v : Terminal). v.screen_x) e in
    let y : u.screen_y ≡ t.screen_y = ap (λ (v : Terminal). v.screen_y) e in
    record {
      buffer = ap (λ (v : Terminal). length v.key_buf) e ∙ s.buffer;
      fits = rw (ap (λ (v : Terminal). v.keyboard_buffer_size) e) s.fits;
      on = record {
        column = rw x s.on.column;
        row = rw y s.on.row;
        below = λ b. x ∙ s.on.below (sym y ∙ b);
      };
    }

KeepsIdle-IsPrepared : (k k' : Kernel) → KeepsIdle k k' → IsPrepared k → IsPrepared k'
KeepsIdle-IsPrepared k k' h p = record {
  frames = record {
    direct = rw h.table p.frames.direct;
    backing = λ i. rw h.table (p.frames.backing i);
    numbered = λ i. ap (λ (t : Terminal). t.terminal_id) (h.terminals i) ∙ p.frames.numbered i;
    addressed = λ i. ap (λ (t : Terminal). t.video_address) (h.terminals i) ∙ p.frames.addressed i;
  };
  routed = rw (h.table, h.active, h.current) p.routed;
  sound = λ i. idle-IsSound (k.terminals i) (k'.terminals i) (h.terminals i) (p.sound i);
  all_idle = h.none_run p.all_idle;
  privileged = h.stack ∙ p.privileged;
}

-- The shells, the timer and `sti`.
pub start-IsPrepared :
    (inb : ℕ → ℕ) (conv_buf : ℕ → Bytes) (loader : Bytes) (boot : Option Bytes) (stack : Bytes)
    (k : Kernel)
    → IsPrepared k
    → IsPrepared (start inb conv_buf loader boot stack k)
      × ((start inb conv_buf loader boot stack k).cpu.interrupts ≡ true)
unfolding start pit_init enable_irq
start-IsPrepared inb conv_buf loader boot stack k p =
    let q = KeepsIdle-IsPrepared k _ (shells-KeepsIdle boot stack k) p in
    (
      record {
        frames = record {
          direct = q.frames.direct;
          backing = q.frames.backing;
          numbered = q.frames.numbered;
          addressed = q.frames.addressed;
        };
        routed = q.routed;
        sound = q.sound;
        all_idle = q.all_idle;
        privileged = q.privileged;
      },
      refl,
    )

at_origin : (t : Terminal) → t.screen_x ≡ 0 → t.screen_y ≡ 0 → IsOnScreen t
at_origin t x y = record { column = omega arith; row = omega arith; below = λ e. x }

-- What `keyboard_init` gives to each terminal.
keyboard_init-AllSound :
    (inb : ℕ → ℕ) (k : Kernel)
    → ((i : TerminalId) → length (k.terminals i).key_buf ≡ 128)
    → AllSound (keyboard_init inb k) × ((i : TerminalId) → process_of (keyboard_init inb k) i ≡ 0)
unfolding keyboard_init enable_irq
keyboard_init-AllSound inb k sized = (
  elim [
    | terminal_1 ↦ record { buffer = sized terminal_1; fits = zero-le; on = at_origin _ refl refl }
    | terminal_2 ↦ record { buffer = sized terminal_2; fits = zero-le; on = at_origin _ refl refl }
    | terminal_3 ↦ record { buffer = sized terminal_3; fits = zero-le; on = at_origin _ refl refl }
  ],
  elim [ terminal_1 ↦ refl | terminal_2 ↦ refl | terminal_3 ↦ refl ],
)

-- What the initialisers make of any kernel whose line buffers have their size.
pub initialize-IsPrepared :
    (inb : ℕ → ℕ) (conv_buf : ℕ → Bytes) (loader : Bytes) (image : Image) (tab : ℕ → Pte)
    (k : Kernel)
    → k.active_terminal ≡ k.current_terminal
    → ((i : TerminalId) → length (k.terminals i).key_buf ≡ 128)
    → IsPrepared (initialize inb conv_buf loader image tab k)
unfolding initialize keyboard_init enable_irq rtc_enable_pie i8259_init
initialize-IsPrepared inb conv_buf loader image tab k shown sized =
    let k2 = record (i8259_init inb (record k { esp0 = 0x800000 })) { pg_tab_1 = tab } in
    let k1 = enable_irq inb 8 (rtc_enable_pie inb (keyboard_init inb k2)) in
    let (frames, routed) =
      page_initialize-HasFrames image.layout k1
        (elim [ terminal_1 ↦ refl | terminal_2 ↦ refl | terminal_3 ↦ refl ])
        (elim [ terminal_1 ↦ refl | terminal_2 ↦ refl | terminal_3 ↦ refl ]) shown in
    let (same_terminals, same_stack) = page_initialize-terminals image.layout k1 in
    record {
      frames = frames;
      routed = routed;
      sound = λ i.
          subst (λ f. IsSound (f i)) (sym same_terminals)
            ((keyboard_init-AllSound inb k2 sized).0 i);
      all_idle = λ i.
          ap (λ f. (f i).current_process_id) same_terminals
          ∙ (keyboard_init-AllSound inb k2 sized).1 i;
      privileged = same_stack;
    }
