-- ===== src/Usr/Gr.antt =====
-- old/usr/gr.c, on the device of old/gread.c. A read of the device is `generic_file_read_iter` of
-- the kernel.
use kernel_module_memo.Base.{
  ℕ, zero, suc, ◌≤◌, ◌≡◌, refl, ap, ◌∙◌, Bool, true, none, some, List, length, if◌then◌else◌,
}
use kernel_module_memo.Base.Family.{update}
use kernel_module_memo.Kernel.Run.{
  Ret, done, Run, ok, oops, Cmd, pure, Ends, then_run, then_run-Ends, ◌>>◌,
}
use kernel_module_memo.Kernel.Heap.{Ptr, IsFresh, SameObjects}
use kernel_module_memo.Mapped.{Info, World}
use kernel_module_memo.Mapped.Mma.{Grants}
use kernel_module_memo.Mapped.Gread.{gopen, gclose}
use kernel_module_memo.Mapped.Opening.{all_granted, mmapfop_open_leaks}

-- `LOOP`
abbrev pub loop : ℕ
loop = 1

-- What `main` returns when the device cannot be opened, as the exit status of the program.
abbrev pub failed : ℕ
failed = 255

module _ (generic_file_read_iter : Cmd World Ret) where
  -- `__read`, which looks at the result of `read` only to print a message.
  unfoldable pub read_once : Cmd World (Unit {0})
  read_once = generic_file_read_iter >> pure tt

  -- The loop of `main`
  unfoldable pub read_times : (times : ℕ) → Cmd World (Unit {0})
  unfolding read_once
  read_times zero = pure tt
  read_times (suc n) = read_once >> read_times n

  -- `main`, where `found` says whether there is a device to open.
  unfoldable pub main : (found : Bool) → Grants → Info → (name : List ℕ) → Cmd World Ret
  unfolding read_times
  main found g junk name =
      if found
      then gopen g junk name >> read_times loop >> gclose >> pure (done 0)
      else pure (done failed)

  module _ (keeps : (w : World) → (r : Ret) × (generic_file_read_iter w ≡ ok r w)) where
    read_times_lem : (n : ℕ) (w : World) → read_times n w ≡ ok tt w
    unfolding read_times read_once
    read_times_lem zero w = refl
    read_times_lem (suc n) w =
        ap (λ r. then_run (then_run r (λ _. pure tt)) (λ _. read_times n)) (keeps w).1
        ∙ read_times_lem n w

    without_reads :
        (n : ℕ) (r : Run World Ret) (k : Cmd World Ret)
        → then_run (then_run r (λ _. read_times n)) (λ _. k) ≡ then_run r (λ _. k)
    without_reads n oops k = refl
    without_reads n (ok ret w) k = ap (λ s. then_run s (λ _. k)) (read_times_lem n w)

    -- If a read of the device does not change the module's objects, a run of the program with all
    -- allocations granted at new addresses, for a name that fits into the page, ends with 0; the
    -- pages are those from before, and one info more than before is live, which nothing points to.
    pub main_leaks :
        (junk : Info) (name : List ℕ) (w : World)
        → IsFresh w.infos
        → IsFresh w.pages
        → w.private_data ≡ none
        → length name ≤ 4064
        → Ends
            (λ r w'.
              (r ≡ done 0)
              × ((q : Ptr) → w'.infos.cell q ≡ update w.infos.cell w.infos.next (some junk) q)
              × SameObjects w.pages w'.pages)
            (main true all_granted junk name w)
    unfolding main
    main_leaks junk name w fresh_i fresh_p closed short =
        rw (without_reads loop (gopen all_granted junk name w) gclose) (
          then_run-Ends _ _ ((gopen all_granted junk name >> gclose) w) (λ _. pure (done 0))
            (mmapfop_open_leaks junk name w fresh_i fresh_p closed short)
            (λ r v h. (refl, h.1, h.2)))
