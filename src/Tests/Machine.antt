-- ===== src/Tests/Machine.antt =====
-- Examples for the processes, the scheduler, the clocks, paging and the interrupt controller.
use Prim.Native.Nat.{zero-le}
use light_os_a_linus_like_os.Common.{
  ◌/◌, ◌⊎◌, ℕ, zero, suc, ◌+◌, ◌<◌, ◌≤◌, ◌≡◌, refl, ◌≢◌, pos, failure, to_int32, some, none, get_or,
  [], ◌∷◌, ◌==◌, if◌then◌else◌, arith,
}
use light_os_a_linus_like_os.Memory.{Bytes, load32}
use light_os_a_linus_like_os.Kernel.{
  same, TerminalId, terminal_1, terminal_2, terminal_3, Kernel, number,
}
use light_os_a_linus_like_os.Paging.{page_initialize, paging_video_memory}
use light_os_a_linus_like_os.Paging.Maps.{
  translate, initial_map, HasFrames, IsRouted, page_initialize-translate,
  paging_video_memory-IsRouted,
}
use light_os_a_linus_like_os.I8259.{enable_irq, disable_irq}
use light_os_a_linus_like_os.I8259.Masks.{bit, irq_masks}
use light_os_a_linus_like_os.Process.Pool.{get_process_available, release_process}
use light_os_a_linus_like_os.Process.Pool.Free.{IsFirst, claim_release_claim}
use light_os_a_linus_like_os.Process.Schedule.{schedule, next_terminal}
use light_os_a_linus_like_os.Process.Schedule.Turns.{Runs, HasProcesses, schedule_round}
use light_os_a_linus_like_os.Process.Halt.{syscall_halt}
use light_os_a_linus_like_os.Process.Halt.Parent.{Returns, syscall_halt-Returns}
use light_os_a_linus_like_os.Rtc.{rtc_read, rtc_write, restart}
use light_os_a_linus_like_os.Rtc.Ticks.{ticks_after, rtc_read_lem}
use light_os_a_linus_like_os.Rtc.Rates.{IsRate, rtc_write_lem}
use light_os_a_linus_like_os.Process.Execute.{start_process}
use light_os_a_linus_like_os.Process.Halt.Trip.{execute_halt}
use light_os_a_linus_like_os.Process.Calls.{syscall_vidmap}
use light_os_a_linus_like_os.Process.Calls.Video.{IsUserPage, syscall_vidmap_lem}
use light_os_a_linus_like_os.Tests.{terminal, image, zeros, layout, cpu, kernel, kernel-HasFrames}

page_initialize-translate_example :
    translate layout (page_initialize layout kernel) 0x400010 ≡ initial_map 0x400010
page_initialize-translate_example = page_initialize-translate layout kernel 0x400010 (omega arith)

paging_video_memory-IsRouted_example :
    HasFrames (paging_video_memory kernel) × IsRouted (paging_video_memory kernel)
paging_video_memory-IsRouted_example = paging_video_memory-IsRouted kernel kernel-HasFrames

-- The three shells.
abbrev shells : Kernel
shells = record kernel { active_pid = 1 }

shells-HasProcesses : HasProcesses shells
shells-HasProcesses = record { all_run = runs; all_differ = differs; has_turn = refl }
  where
    runs : (id : TerminalId) → number id ≢ 0
    runs terminal_1 = omega arith
    runs terminal_2 = omega arith
    runs terminal_3 = omega arith

    differs :
        (id : TerminalId) → number id ≢ (shells.terminals (next_terminal id)).current_process_id
    differs terminal_1 = omega arith
    differs terminal_2 = omega arith
    differs terminal_3 = omega arith

schedule_round_example :
    let k1 = schedule shells in
    let k2 = schedule (record k1 { cpu = record cpu { esp = 7 } }) in
    let k3 = schedule (record k2 { cpu = record cpu { ebp = 9 } }) in
    Runs 1 100 200 k3 × (k3.active_terminal ≡ terminal_1)
schedule_round_example =
    schedule_round shells (record cpu { esp = 7 }) (record cpu { ebp = 9 }) shells-HasProcesses

syscall_halt-Returns_example : Returns 4 1 0 kernel (syscall_halt 0 kernel)
syscall_halt-Returns_example =
    syscall_halt-Returns 0 kernel (omega arith) (omega arith) refl (omega arith)

-- Slot 5 is the first free one.
pub five-IsFirst : IsFirst 0 kernel.processes 5
five-IsFirst = (zero-le, refl, λ j a b. taken j b)
  where
    taken : (j : ℕ) → j < 5 → get_or kernel.processes j 1 ≢ 0
    taken zero h = omega arith
    taken (suc zero) h = omega arith
    taken (suc (suc zero)) h = omega arith
    taken (suc (suc (suc zero))) h = omega arith
    taken (suc (suc (suc (suc zero)))) h = omega arith
    taken (suc (suc (suc (suc (suc j))))) h = omega arith

claim_release_claim_example :
    let k1 = (get_process_available kernel).1 in
    let k2 = (release_process (pos 5) k1).1 in
    (get_process_available k2 ≡ (some 5, k1)) × ((release_process (pos 5) k1).0 ≡ pos 0)
claim_release_claim_example = claim_release_claim kernel 5 refl five-IsFirst (omega arith)

-- At rate 2 and 1024 interrupts a second the call waits for 512.
rtc_read_lem_example :
    let rate = (kernel.terminals kernel.active_terminal).virtual_rate in
    (rate ≢ 0 → 512 ≤ 600 → rtc_read 600 kernel ≡ some (ticks_after 512 (restart kernel)))
    × (rate ≢ 0 → 600 < 512 → rtc_read 600 kernel ≡ none)
    × (rate ≡ 0 → rtc_read 600 kernel ≡ none)
rtc_read_lem_example = rtc_read_lem 600 kernel

rtc_write_lem_example :
    ((buf : Bytes) (rate : ℕ)
      → to_int32 (load32 buf 0) ≡ pos rate
      → IsRate rate
      → let t = kernel.terminals kernel.active_terminal in
        rtc_write (some buf) kernel ≡ (
          pos 0,
          record kernel {
            terminals = λ i.
                if same kernel.active_terminal i
                then record t { virtual_rate = rate; virtual_count = kernel.physical_rate / rate }
                else kernel.terminals i;
          },
        ))
    × ((buf : Bytes)
        → ((rate : ℕ) → IsRate rate → to_int32 (load32 buf 0) ≢ pos rate)
        → rtc_write (some buf) kernel ≡ (failure, kernel))
    × (rtc_write none kernel ≡ (failure, kernel))
rtc_write_lem_example = rtc_write_lem kernel

irq_masks_example :
    (on off : ℕ) × (enable_irq (λ port. 0xFF) 9 kernel
      ≡ record kernel { outputs = (on, 0xA1) ∷ [] })
    × (disable_irq (λ port. 0xFF) 9 kernel ≡ record kernel { outputs = (off, 0xA1) ∷ [] })
    × ((j : ℕ)
        → j < 8
        → (bit j on ≡ (if j == 1 then 0 else bit j 0xFF))
          × (bit j off ≡ (if j == 1 then 1 else bit j 0xFF)))
irq_masks_example = irq_masks (λ port. 0xFF) 9 kernel (omega arith) (omega arith)

execute_halt_example :
    let ran = record (start_process (some image) (pos 1) 5 kernel) { cpu = cpu; memory = zeros } in
    let k' = syscall_halt 9 ran in
    Returns 5 4 9 ran k'
    × (k'.active_terminal ≡ terminal_1)
    × (k'.cpu.esp ≡ 208)
    × (k'.cpu.ebp ≡ load32 zeros 200)
    × (k'.cpu.eip ≡ load32 zeros 204)
execute_halt_example =
    execute_halt (some image) (pos 1) 5 9 kernel cpu zeros (omega arith) (omega arith) (omega arith)
      refl

-- No shell has been entered yet.
abbrev fresh : Kernel
fresh = record kernel {
  terminals = λ id. let t = terminal id in record t { current_process_id = 0 };
}

syscall_vidmap_lem_example :
    (0x8000000 ≤ 0x8000100
      → 0x8000100 ≤ 0x8400000
      → (k' : Kernel) × (syscall_vidmap layout 0x8000100 kernel
          ≡ (pos 0x8400000, some 0x8400000, k'))
        × ((o : ℕ) → o < 4096 → translate layout k' (0x8400000 + o) ≡ some (0xB8000 + o))
        × IsUserPage k'
        × ((k'.pcbs 4).vidmap_flag ≡ 1))
    × ((0x8000100 < 0x8000000) ⊎ (0x8400000 < 0x8000100)
        → syscall_vidmap layout 0x8000100 kernel ≡ (failure, none, kernel))
syscall_vidmap_lem_example = syscall_vidmap_lem layout 0x8000100 kernel (omega arith)
