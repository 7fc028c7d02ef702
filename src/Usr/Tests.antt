-- ===== src/Usr/Tests.antt =====
-- The theorems on old/usr/vm.c and old/usr/mm.c at concrete answers of the kernel.
use kernel_module_memo.Base.{
  ℕ, true, ◌≡◌, refl, Option, none, some, List, [], ◌∷◌, arith, replicate, length, length-replicate,
  ℕ_discrete, ◌==◌, if◌then◌else◌,
}
use kernel_module_memo.Usr.Pagemap.{
  PagemapEntry, read_loop, pagemap_get_entry, virt_to_phys_user, stored,
}
use kernel_module_memo.Kernel.Run.{done, Ends, oops, ◌>>◌}
use kernel_module_memo.Kernel.Uaccess.{Flat, flat, nth, bytes_from, from_flat, to_flat}
use kernel_module_memo.Mapped.Vmm.{open_file}
use kernel_module_memo.Mapped.{World}
use kernel_module_memo.Mapped.Opening.{all_granted}
use kernel_module_memo.Usr.Mm
use kernel_module_memo.Usr.Kure
use kernel_module_memo.Usr.Kure.{main-cat}
use kernel_module_memo.Usr.Stdio.{line, IsText}
use kernel_module_memo.Tgw.{Tgw}
use kernel_module_memo.Tgw.Reading.{IsValid}
use kernel_module_memo.Usr.Mm.Session.{Leaks, main-Leaks}
use kernel_module_memo.Usr.Vm.{Process, Answers, zxcv, accesses, main}
use kernel_module_memo.Usr.Vm.Coherence.{CopiesWork, Closed, main_passes}
use kernel_module_memo.Usr.Pagemap.Entry.{documented, bytes_of, shifted, pagemap_get_entry_lem}

abbrev junk : List ℕ
junk = replicate 8 9

-- Frame 258, present.
abbrev entry : PagemapEntry
entry = record { pfn = 258; soft_dirty = 0; file_page = 0; swapped = 0; present = 1 }

abbrev whole : ℕ → Option (List ℕ)
whole offset = some (2 ∷ 1 ∷ 0 ∷ 0 ∷ 0 ∷ 0 ∷ 0 ∷ 128 ∷ [])

-- Two bytes at first, and then the rest of the word with two bytes of the next.
abbrev short : ℕ → Option (List ℕ)
short offset =
    if offset == 16 then some (2 ∷ 1 ∷ []) else some (0 ∷ 0 ∷ 0 ∷ 0 ∷ 0 ∷ 128 ∷ 7 ∷ 7 ∷ [])

abbrev silent : ℕ → Option (List ℕ)
silent offset = some []

pagemap_get_entry_lem_example : pagemap_get_entry 4096 whole junk 8200 ≡ some (shifted entry)
unfolding bytes_of documented
pagemap_get_entry_lem_example =
    pagemap_get_entry_lem 4096 whole junk 8200 0 entry (omega arith)
      (omega arith, omega arith, omega arith, omega arith, omega arith) refl refl

abbrev empty : Process
empty = record {
  kernel = record {
    infos = record { next = 2; cell = λ q. none };
    pages = record { next = 9; cell = λ q. none };
    private_data = none;
  };
  page_of = λ a. none;
  vma = λ a. none;
}

abbrev answers : Answers
answers = record {
  file_opened = true;
  info_granted = true;
  page_granted = true;
  info_junk = record { page_data = none; reference = 7 };
  address1 = some 8192;
  address2 = some 12288;
  sysconf_page_size = 4096;
  opened = true;
  pread = whole;
  data_junk = junk;
}

abbrev buf : Flat
buf = record { limit = 4; at = λ i. 0 }

abbrev text : Flat
text = record { limit = 5; at = nth zxcv }

copies_work : CopiesWork flat buf text
unfolding from_flat to_flat
copies_work = (λ from long. refl, λ to long. refl)

main_passes_example : Ends (Closed empty.kernel) (main flat answers 2 buf text empty)
unfolding virt_to_phys_user pagemap_get_entry read_loop stored bytes_from nth
main_passes_example =
    main_passes flat answers buf text empty 2 8192 12288 (omega arith) refl refl refl refl refl refl
      refl refl copies_work refl (λ p le. refl) (λ p le. refl)

-- Both mappings at one address fail the first assertion.
same_address : main flat (record answers { address2 = some 8192 }) 2 buf text empty ≡ oops
unfolding main accesses open_file ℕ_discrete
same_address = refl

-- No file of old/mma.c is open.
abbrev nothing_open : World
nothing_open = record {
  infos = record { next = 3; cell = λ q. none };
  pages = record { next = 7; cell = λ q. none };
  private_data = none;
}

main-Leaks_example :
    Ends
      (λ r t. (r ≡ done 0) × Leaks answers.info_junk Mm.loop nothing_open t)
      (Mm.main flat all_granted answers.info_junk (b'm' ∷ []) true (λ i. buf) nothing_open)
main-Leaks_example =
    main-Leaks flat answers.info_junk (b'm' ∷ []) nothing_open (λ i. buf) (λ q le. refl) refl
      (omega arith)

-- The device of old/simple.c, untouched; stdio's buffer, and the buffer of a client.
abbrev new_device : Tgw
new_device = record { k_buf = replicate 1024 0; data_size = 0; all_read = 0 }

abbrev stdio_buffer : List ℕ → Flat
stdio_buffer text = record { limit = 4096; at = nth text }

abbrev input : List ℕ
input = b'o' ∷ b'k' ∷ 10 ∷ b'n' ∷ b'o' ∷ []

abbrev cat_buffer : Flat
cat_buffer = record { limit = 4096; at = λ i. 9 }

input-Delivers : Kure.Delivers flat stdio_buffer cat_buffer (line 99 input)
unfolding line bytes_from nth from_flat to_flat
input-Delivers = (refl, λ to. refl, λ from. refl)

new_device-IsValid : IsValid new_device
new_device-IsValid = record { whole = length-replicate {A = ℕ} 1024 0; held = omega arith }

input-IsText : IsText (line 99 input)
unfolding line
input-IsText = (λ e. cc, (λ e. cc, (λ e. cc, tt)))

main-cat_example :
    Ends
      (λ ((n, user), at_end) t.
        (n ≡ length (line 99 input))
        × (bytes_from user.at 0 (length (line 99 input)) ≡ line 99 input)
        × (at_end ≡ 0)
        × IsValid t
        × (t.all_read ≡ 0))
      ((Kure.main flat stdio_buffer true input (replicate 100 9) >> Kure.cat flat cat_buffer 512)
        new_device)
main-cat_example =
    main-cat flat stdio_buffer cat_buffer b'o' (b'k' ∷ 10 ∷ b'n' ∷ b'o' ∷ []) (replicate 100 9) 512
      new_device input-Delivers input-IsText new_device-IsValid refl (omega arith)
