-- ===== src/Mapped/References.antt =====
-- How old/mma.c counts mappings.
use kernel_module_memo.Base.{◌^◌, ◌<◌, ◌≡◌, refl, some, arith}
use kernel_module_memo.Kernel.Run.{ok, Ends, ◌>>=◌}
use kernel_module_memo.Kernel.Heap.{Ptr, put, SameObjects}
use kernel_module_memo.Mapped.{Info, World}
use kernel_module_memo.Mapped.Mma.{mmap_open, mmap_close, my_mmap, close_mapping}

close-open : (info : Info) → info.reference < 2 ^ 32 → mmap_close (mmap_open info) ≡ info
unfolding mmap_open mmap_close
close-open info lt = ground arith

-- A mapping that begins and ends leaves the count of mappings of an open file, an `int`, and all
-- else as it was.
pub my_mmap-close :
    (w : World) (i : Ptr) (info : Info)
    → w.private_data ≡ some i
    → w.infos.cell i ≡ some info
    → info.reference < 2 ^ 32
    → Ends
        (λ _ t.
          SameObjects w.infos t.infos × (t.pages ≡ w.pages) × (t.private_data ≡ w.private_data))
        ((my_mmap >>= close_mapping) w)
unfolding my_mmap close_mapping
my_mmap-close w i info e f lt =
    let v : World = record w { infos = put w.infos i (some (mmap_open info)) } in
    let begun : my_mmap w ≡ ok (some i) v = ground (arith, e, f) in
    let back : Info = mmap_close (mmap_open info) in
    let ended : close_mapping (some i) v ≡ ok tt (record v { infos = put v.infos i (some back) }) =
      ground arith in
    rw begun (rw ended (λ q. ground (arith, f, close-open info lt), refl, refl))
