-- ===== src/Keyboard/Switch.antt =====
-- The switch between terminals saves the screen and brings back the other one.
use light_os_a_linus_like_os.Common.{
  ℕ, ◌+◌, ◌-◌, ◌<◌, ◌≡◌, refl, ◌∙◌, ◌≢◌, false, ◌&&◌, ltb, leb, if◌then◌else◌, arith,
}
use light_os_a_linus_like_os.Memory.{Bytes, memcpy_lem}
use light_os_a_linus_like_os.Kernel.{
  TerminalId, terminal_1, terminal_2, terminal_3, number, same, Kernel, cli, sti, physical,
}
use light_os_a_linus_like_os.Console.{video_mem_direct, set_cursor_position}
use light_os_a_linus_like_os.Paging.{paging_video_memory}
use light_os_a_linus_like_os.Paging.Maps.{
  HasFrames, IsRouted, backing, paging_video_memory-IsRouted,
}
use light_os_a_linus_like_os.Keyboard.{
  save_screen, restore_screen, set_cursor, show, switch_to_terminal_1, switch_to_terminal_2,
  switch_to_terminal_3,
}

-- Alt with a function key calls the function of that terminal.
abbrev pub switch_to : TerminalId → Kernel → Kernel
switch_to terminal_1 = switch_to_terminal_1
switch_to terminal_2 = switch_to_terminal_2
switch_to terminal_3 = switch_to_terminal_3

physical-backing :
    (k : Kernel) (i : TerminalId)
    → HasFrames k
    → physical k (k.terminals i).video_address ≡ backing i
physical-backing k terminal_1 h = rw (h.addressed terminal_1) (omega (arith, h.backing terminal_1))
physical-backing k terminal_2 h = rw (h.addressed terminal_2) (omega (arith, h.backing terminal_2))
physical-backing k terminal_3 h = rw (h.addressed terminal_3) (omega (arith, h.backing terminal_3))

physical-direct : (k : Kernel) → HasFrames k → physical k video_mem_direct ≡ 0xB8000
physical-direct k h = omega (arith, h.direct)

-- The memory after the screen went to the page at `old` and the page at `new` came to the screen.
abbrev pub exchanged : ℕ → ℕ → Bytes → ℕ → ℕ
exchanged old new m a =
    if leb 0xB8000 a && ltb a 0xB9000
    then m (new + (a - 0xB8000))
    else if leb old a && ltb a (old + 4096)
    then m (0xB8000 + (a - old))
    else m a

save_screen-memory :
    (k : Kernel) (a : ℕ)
    → HasFrames k
    → (save_screen k).memory a ≡ (
        if leb (backing k.current_terminal) a && ltb a (backing k.current_terminal + 4096)
        then k.memory (0xB8000 + (a - backing k.current_terminal))
        else k.memory a)
unfolding save_screen
save_screen-memory k a h =
    rw (physical-backing k k.current_terminal h, physical-direct k h)
      (memcpy_lem 4096 (backing k.current_terminal) 0xB8000 k.memory k.memory a)

restore_screen-memory :
    (k : Kernel) (a : ℕ)
    → HasFrames k
    → (restore_screen k).memory a ≡ (
        if leb 0xB8000 a && ltb a 0xB9000
        then k.memory (backing k.current_terminal + (a - 0xB8000))
        else k.memory a)
unfolding restore_screen
restore_screen-memory k a h =
    rw (physical-backing k k.current_terminal h, physical-direct k h)
      (memcpy_lem 4096 0xB8000 (backing k.current_terminal) k.memory k.memory a)

same_sym : (i j : TerminalId) → same i j ≡ false → same j i ≡ false
same_sym i j h = ground arith

numbers_differ : (i j : TerminalId) → same i j ≡ false → number i ≢ number j
numbers_differ i j h = ground arith

-- Saving, then showing another terminal, then restoring.
exchange_lem :
    (k : Kernel) (i : TerminalId) (a : ℕ)
    → HasFrames k
    → same k.current_terminal i ≡ false
    → (if leb 0xB8000 a && ltb a 0xB9000
        then (save_screen k).memory (backing i + (a - 0xB8000))
        else (save_screen k).memory a)
      ≡ exchanged (backing k.current_terminal) (backing i) k.memory a
exchange_lem k i a h d = ground (
  arith,
  save_screen-memory k a h,
  save_screen-memory k (backing i + (a - 0xB8000)) h,
  numbers_differ k.current_terminal i,
)

-- The two orders in which the functions restore the screen and route the video page.
abbrev routed_first : TerminalId → Kernel → Kernel
routed_first i k = restore_screen (paging_video_memory (show i (save_screen (cli k))))

abbrev restored_first : TerminalId → Kernel → Kernel
restored_first i k = paging_video_memory (restore_screen (show i (save_screen (cli k))))

-- What a switch to `i` is to leave, from a kernel that shows another terminal.
pub record Switched (i : TerminalId) (k k' : Kernel) : Type 0 where
  pub shown : k'.current_terminal ≡ i
  pub memory : (a : ℕ) → k'.memory a ≡ exchanged (backing k.current_terminal) (backing i) k.memory a
  pub frames : HasFrames k'
  pub routed : IsRouted k'
  pub scheduled : k'.active_terminal ≡ k.active_terminal

same_frames :
    (k k' : Kernel)
    → k'.pg_tab_1 ≡ k.pg_tab_1
    → k'.terminals ≡ k.terminals
    → HasFrames k
    → HasFrames k'
same_frames k k' e f h = record {
  direct = rw e h.direct;
  backing = λ i. rw e (h.backing i);
  numbered = λ i. rw f (h.numbered i);
  addressed = λ i. rw f (h.addressed i);
}

-- Setting the cursor and the interrupt flag changes none of it.
Switched-cursor :
    (i : TerminalId) (k k' : Kernel) → Switched i k k' → Switched i k (sti (set_cursor k'))
unfolding set_cursor set_cursor_position
Switched-cursor i k k' s = record {
  shown = s.shown;
  memory = s.memory;
  frames = same_frames k' _ refl refl s.frames;
  routed = s.routed;
  scheduled = s.scheduled;
}

module _ (i : TerminalId) (k : Kernel) (h : HasFrames k)
    (d : same k.current_terminal i ≡ false) where
  saved-HasFrames : HasFrames (show i (save_screen (cli k)))
  unfolding save_screen
  saved-HasFrames = same_frames k _ refl refl h

  restored-HasFrames : HasFrames (restore_screen (show i (save_screen (cli k))))
  unfolding save_screen restore_screen
  restored-HasFrames = same_frames k _ refl refl h

  cli-HasFrames : HasFrames (cli k)
  cli-HasFrames = same_frames k _ refl refl h

  routed_first-Switched : Switched i k (routed_first i k)
  unfolding restore_screen paging_video_memory save_screen
  routed_first-Switched =
      let (f, r) = paging_video_memory-IsRouted (show i (save_screen (cli k))) saved-HasFrames in
      record {
        shown = refl;
        memory = λ a.
            restore_screen-memory (paging_video_memory (show i (save_screen (cli k)))) a f
            ∙ exchange_lem (cli k) i a cli-HasFrames d;
        frames = same_frames (paging_video_memory (show i (save_screen (cli k)))) _ refl refl f;
        routed = r;
        scheduled = refl;
      }

  restored_first-Switched : Switched i k (restored_first i k)
  unfolding restore_screen paging_video_memory save_screen
  restored_first-Switched =
      let (f, r) =
        paging_video_memory-IsRouted (restore_screen (show i (save_screen (cli k))))
          restored-HasFrames in
      record {
        shown = refl;
        memory = λ a.
            restore_screen-memory (show i (save_screen (cli k))) a saved-HasFrames
            ∙ exchange_lem (cli k) i a cli-HasFrames d;
        frames = f;
        routed = r;
        scheduled = refl;
      }

-- `switch_to_terminal_1`, `_2` and `_3`, called while another terminal is shown: the terminal is
-- shown; the 4096 bytes of the screen are in the backing page of the terminal that was shown, and
-- those of the new terminal's backing page are on the screen; no other byte of memory changes;
-- the video page of the scheduled terminal, which stays scheduled, leads to the right frame.
pub switch_to-Switched :
    (i : TerminalId) (k : Kernel)
    → HasFrames k
    → same k.current_terminal i ≡ false
    → Switched i k (switch_to i k)
unfolding switch_to_terminal_1 switch_to_terminal_2 switch_to_terminal_3
switch_to-Switched terminal_1 k h d =
    rw d (Switched-cursor terminal_1 k _ (routed_first-Switched terminal_1 k h d))
switch_to-Switched terminal_2 k h d =
    rw d (Switched-cursor terminal_2 k _ (restored_first-Switched terminal_2 k h d))
switch_to-Switched terminal_3 k h d =
    rw d (Switched-cursor terminal_3 k _ (routed_first-Switched terminal_3 k h d))

exchanged-screen :
    (old new : ℕ) (m : Bytes) (o : ℕ) → o < 4096 → exchanged old new m (0xB8000 + o) ≡ m (new + o)
exchanged-screen old new m o h = ground arith

exchanged-page :
    (i : TerminalId) (new : ℕ) (m : Bytes) (o : ℕ)
    → o < 4096
    → exchanged (backing i) new m (backing i + o) ≡ m (0xB8000 + o)
exchanged-page i new m o h = ground arith

-- Switching to another terminal and back, with nothing written in between, brings back every byte
-- of the screen.
pub switch_and_back :
    (i j : TerminalId) (k : Kernel) (o : ℕ)
    → HasFrames k
    → k.current_terminal ≡ i
    → same i j ≡ false
    → o < 4096
    → (switch_to i (switch_to j k)).memory (0xB8000 + o) ≡ k.memory (0xB8000 + o)
switch_and_back i j k o h e d lt =
    let there = switch_to-Switched j k h (rw e d) in
    let back =
      switch_to-Switched i (switch_to j k) there.frames (rw there.shown (same_sym i j d)) in
    back.memory (0xB8000 + o)
    ∙ exchanged-screen (backing (switch_to j k).current_terminal) (backing i) (switch_to j k).memory
        o lt
    ∙ there.memory (backing i + o)
    ∙ rw e (exchanged-page i (backing j) k.memory o lt)
