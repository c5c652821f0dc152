-- ===== src/Entry/Frame.antt =====
-- What the printing of kernel.c's `entry` does: it goes on, and changes nothing but the screen.
use Prim.Native.String.{String}
use native.Mathlib.Nat.{mod-eq_of_lt}
use light_os_a_linus_like_os.Common.{
  ℕ, zero, suc, ◌+◌, ◌-◌, ◌%◌, ◌<◌, ◌≤◌, ◌≡◌, ◌⊎◌, inl, inr, refl, u32, Option, some, ◌>>=◌, List,
  [], ◌∷◌, Bool, true, false, not, ◌&&◌, ◌||◌, length, ltb, ◌==◌, if◌then◌else◌, get_or, arith,
  Bool-cases, ltb→lt,
}
use light_os_a_linus_like_os.Memory.{Bytes, load32, offset_by}
use light_os_a_linus_like_os.Text.{codes, bytes_of, has_no_nul, bytes_of-IsLength}
use light_os_a_linus_like_os.Kernel.{Kernel}
use light_os_a_linus_like_os.Printf.Returns.{
  Prints, Prints-none, Prints-trans, HasEnd, printf-Returns,
}
use light_os_a_linus_like_os.Entry.{
  check_flag, char_to_int, print, print_if, print_bytes, print_module, print_modules, print_region,
  print_map, describe, describe_rest, mmap_end,
}

-- The last character is neither '%' nor '#'.
abbrev pub ends_plain : List ℕ → Bool
ends_plain [] = true
ends_plain (c ∷ []) = not (c == b'%' || c == b'#')
ends_plain (c ∷ (d ∷ cs)) = ends_plain (d ∷ cs)

ends_plain-closed :
    (cs : List ℕ) (i : ℕ)
    → ends_plain cs ≡ true
    → i < length cs
    → (get_or cs i 0 ≡ b'%') ⊎ (get_or cs i 0 ≡ b'#')
    → suc i < length cs
ends_plain-closed [] i h lt q = absurd (omega arith)
ends_plain-closed (c ∷ []) zero h lt q = ground arith
ends_plain-closed (c ∷ []) (suc i) h lt q = absurd (omega arith)
ends_plain-closed (c ∷ (d ∷ cs)) zero h lt q = omega arith
ends_plain-closed (c ∷ (d ∷ cs)) (suc i) h lt q =
    let less = ends_plain-closed (d ∷ cs) i h (omega arith) q in omega arith

-- All the arguments are 32-bit words.
abbrev Words : List ℕ → Type 0
Words [] = Unit
Words (a ∷ l) = (a < u32) × Words l

get_or-Words : (l : List ℕ) (i : ℕ) → Words l → get_or l i 0 < u32
get_or-Words [] i w = omega arith
get_or-Words (a ∷ l) zero (h, w) = h
get_or-Words (a ∷ l) (suc i) (h, w) = get_or-Words l i w

not_ltb : (a b : ℕ) → b ≤ a → ltb a b ≡ false
not_ltb a b h = ground arith

-- A step that goes on, having printed some characters.
abbrev pub Goes : Kernel → Option Kernel → Type 0
Goes k o = (k' : Kernel) × (o ≡ some k') × Prints k k'

pub Goes-bind :
    (k : Kernel) (o : Option Kernel) (f : Kernel → Option Kernel)
    → Goes k o
    → ((k' : Kernel) → Goes k' (f k'))
    → Goes k (o >>= f)
Goes-bind k o f (k1, e, p) next =
    let (k2, e', p') = next k1 in (k2, rw e e', Prints-trans k k1 k2 p p')

Goes-if : (b : Bool) (k : Kernel) (o : Option Kernel) → Goes k o → Goes k (if b then o else some k)
Goes-if true k o h = h
Goes-if false k o h = (k, refl, Prints-none k)

-- A literal that can be a format.
abbrev pub is_format : List ℕ → Bool
is_format cs = has_no_nul cs && ends_plain cs && ltb (length cs) 256

load32-word : (m : Bytes) (a : ℕ) → ((i : ℕ) → m i < 256) → load32 m a < u32
load32-word m a h =
    let b0 = h a in let b1 = h (a + 1) in let b2 = h (a + 2) in let b3 = h (a + 3) in omega arith

module _ (inb : ℕ → ℕ) (conv_buf : ℕ → Bytes) (loader : Bytes) (bytes : (a : ℕ) → loader a < 256)
    (ends : (p : ℕ) → p < u32 → HasEnd (offset_by p loader)) where
  pub print-Goes :
      (format : String) (args : List ℕ) (k : Kernel)
      → is_format (codes format) ≡ true
      → Words args
      → Goes k (print inb conv_buf loader format args k)
  unfolding print
  print-Goes format args k h w =
      let no_nul : has_no_nul (codes format) ≡ true = ground arith in
      let plain : ends_plain (codes format) ≡ true = ground arith in
      let short : ltb (length (codes format)) 256 ≡ true = ground arith in
      let (k', e, p) =
        printf-Returns (bytes_of (codes format)) (λ i. get_or args i 0) (λ p. offset_by p loader)
          conv_buf (length (codes format)) k (λ i. get_or-Words args i w) ends
          (bytes_of-IsLength (codes format) no_nul) (omega (arith, ltb→lt))
          (λ i. ends_plain-closed (codes format) i plain) in
      (k', rw e refl, p)

  word : (a : ℕ) → load32 loader a < u32
  word a = load32-word loader a bytes

  print_bytes-Goes :
      (rounds address : ℕ) (k : Kernel) → Goes k (print_bytes inb conv_buf loader rounds address k)
  unfolding print_bytes
  print_bytes-Goes zero address k = (k, refl, Prints-none k)
  print_bytes-Goes (suc rounds) address k =
      Goes-bind k (print inb conv_buf loader "0x%x " (char_to_int (loader address) ∷ []) k)
        (print_bytes inb conv_buf loader rounds (suc address))
        (print-Goes "0x%x " (char_to_int (loader address) ∷ []) k refl (extended, tt))
        (print_bytes-Goes rounds (suc address))
    where
      extended : char_to_int (loader address) < u32
      extended = let b = bytes address in ground arith

  print_module-Goes :
      (mod_count module_at : ℕ) (k : Kernel)
      → mod_count < u32
      → Goes k (print_module inb conv_buf loader mod_count module_at k)
  unfolding print_module
  print_module-Goes mod_count module_at k small =
      Goes-bind k _ _
        (print-Goes "Module %d loaded at address: 0x%#x\n"
          (mod_count ∷ load32 loader module_at ∷ []) k refl (small, (word module_at, tt)))
        (λ k1.
          Goes-bind k1 _ _
            (print-Goes "Module %d ends at address: 0x%#x\n"
              (mod_count ∷ load32 loader (module_at + 4) ∷ []) k1 refl
              (small, (word (module_at + 4), tt)))
            (λ k2. Goes-bind k2 _ _ (print-Goes "First few bytes of module:\n" [] k2 refl tt) (λ k3.
              Goes-bind k3 _ _ (print_bytes-Goes 16 (load32 loader module_at) k3)
                (λ k4. print-Goes "\n" [] k4 refl tt))))

  print_modules-Goes :
      (rounds mod_count module_at : ℕ) (k : Kernel)
      → mod_count + rounds ≤ u32
      → Goes k (print_modules inb conv_buf loader rounds mod_count module_at k)
  unfolding print_modules
  print_modules-Goes zero mod_count module_at k le = (k, refl, Prints-none k)
  print_modules-Goes (suc rounds) mod_count module_at k le =
      Goes-bind k (print_module inb conv_buf loader mod_count module_at k)
        (print_modules inb conv_buf loader rounds (suc mod_count) (module_at + 16))
        (print_module-Goes mod_count module_at k (omega arith))
        (λ k1. print_modules-Goes rounds (suc mod_count) (module_at + 16) k1 (omega arith))

  print_region-Goes : (mmap : ℕ) (k : Kernel) → Goes k (print_region inb conv_buf loader mmap k)
  unfolding print_region
  print_region-Goes mmap k =
      print-Goes "    size = 0x%x, base_addr = 0x%#x%#x\n    type = 0x%x,  length    = 0x%#x%#x\n" _
        k refl
        (
          word mmap,
          (
            word (mmap + 8),
            (word (mmap + 4), (word (mmap + 20), (word (mmap + 16), (word (mmap + 12), tt)))),
          ),
        )

  -- The loop over the memory map ends if no entry reaches over the end of memory.
  print_map-Goes :
      (fuel end mmap : ℕ) (k : Kernel)
      → ((a : ℕ) → a < end → a + load32 loader a + 4 < u32)
      → end ≤ mmap + fuel
      → Goes k (print_map inb conv_buf loader (suc fuel) end mmap k)
  unfolding print_map
  print_map-Goes zero end mmap k climbs le =
      rw (not_ltb mmap end (omega arith)) (k, refl, Prints-none k)
  print_map-Goes (suc fuel) end mmap k climbs le = elim (Bool-cases (ltb mmap end)) [
    | inl e ↦
        let next : (mmap + load32 loader mmap + 4) % u32 ≡ mmap + load32 loader mmap + 4 =
          mod-eq_of_lt (climbs mmap (ltb→lt mmap end e)) in
        rw (e, next)
          (Goes-bind k (print_region inb conv_buf loader mmap k)
            (print_map inb conv_buf loader (suc fuel) end (mmap + load32 loader mmap + 4))
            (print_region-Goes mmap k)
            (λ k1. print_map-Goes fuel end (mmap + load32 loader mmap + 4) k1 climbs (omega arith)))
    | inr e ↦ rw e (k, refl, Prints-none k)
  ]

  print_if-Goes :
      (b : Bool) (format : String) (args : List ℕ) (k : Kernel)
      → is_format (codes format) ≡ true
      → Words args
      → Goes k (print_if inb conv_buf loader b format args k)
  print_if-Goes b format args k h w =
      Goes-if b k (print inb conv_buf loader format args k) (print-Goes format args k h w)

  pub describe-Goes : (mbi : ℕ) (k : Kernel) → Goes k (describe inb conv_buf loader mbi k)
  unfolding describe
  describe-Goes mbi k =
      let flags = load32 loader mbi in
      Goes-bind k _ _ (print-Goes "flags = 0x%#x\n" (flags ∷ []) k refl (word mbi, tt)) (λ k1.
        Goes-bind k1 _ _
          (print_if-Goes (check_flag flags 0) "mem_lower = %uKB, mem_upper = %uKB\n"
            (load32 loader (mbi + 4) ∷ load32 loader (mbi + 8) ∷ []) k1 refl
            (word (mbi + 4), (word (mbi + 8), tt)))
          (λ k2.
            Goes-bind k2 _ _
              (print_if-Goes (check_flag flags 1) "boot_device = 0x%#x\n"
                (load32 loader (mbi + 12) ∷ []) k2 refl (word (mbi + 12), tt))
              (λ k3.
                Goes-bind k3 _ _
                  (print_if-Goes (check_flag flags 2) "cmdline = %s\n"
                    (load32 loader (mbi + 16) ∷ []) k3 refl (word (mbi + 16), tt))
                  (λ k4. Goes-if (check_flag flags 3) k4 _ (
                    print_modules-Goes (load32 loader (mbi + 20)) 0 (load32 loader (mbi + 24)) k4
                      (let w = word (mbi + 20) in omega arith))))))

  pub describe_rest-Goes :
      (mbi : ℕ) (k : Kernel)
      → ((a : ℕ) → a < mmap_end inb conv_buf loader mbi → a + load32 loader a + 4 < u32)
      → Goes k (describe_rest inb conv_buf loader mbi k)
  unfolding describe_rest
  describe_rest-Goes mbi k climbs =
      let flags = load32 loader mbi in
      Goes-bind k _ _
        (print_if-Goes (check_flag flags 5)
          "elf_sec: num = %u, size = 0x%#x, addr = 0x%#x, shndx = 0x%#x\n"
          (load32 loader (mbi + 28)
            ∷ load32 loader (mbi + 32)
            ∷ load32 loader (mbi + 36)
            ∷ load32 loader (mbi + 40)
            ∷ [])
          k refl (word (mbi + 28), (word (mbi + 32), (word (mbi + 36), (word (mbi + 40), tt)))))
        (λ k1.
          Goes-bind k1 _ _
            (print_if-Goes (check_flag flags 6) "mmap_addr = 0x%#x, mmap_length = 0x%x\n"
              (load32 loader (mbi + 48) ∷ load32 loader (mbi + 44) ∷ []) k1 refl
              (word (mbi + 48), (word (mbi + 44), tt)))
            (λ k2. Goes-if (check_flag flags 6) k2 _ (
              print_map-Goes (u32 - 1) (mmap_end inb conv_buf loader mbi) (load32 loader (mbi + 48))
                k2 climbs (omega arith))))
