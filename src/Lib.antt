-- ===== src/Lib.antt =====
-- A verification library for the kernel module notes. Each of the repository's modules is a small
-- Linux kernel module of its own; they share no code, only the kernel's interfaces. The kernel's side
-- is a parameter or an interface: what an allocation answers is an argument of each operation, user
-- memory is the record Kernel.Uaccess, RCU is what its documentation promises, and the option parser,
-- the waits, `tuse_copy_fill`, the answers of `pread` and the layout of a header are arguments of the
-- definitions that use them.
--
-- Base holds the shared names: Boolean tests, lists over the native numbers, functions updated at a
-- place. Kernel holds what the modules use of the kernel: error numbers and commands that may fault
-- (Kernel.Run), user memory (Kernel.Uaccess) and the slab heap (Kernel.Heap). A fault, `oops`, stands
-- for an access outside of any live object, a bad `kfree`, a `BUG()`, a failed `assert` or a deadlock
-- of a thread with itself.
--
-- Rcu: rcu/toy_impl and, with the kernel's RCU, rcu/use_example. Rcu.Lock is
-- rcu/toy_impl/sample_locking.c, a reader-writer lock as RCU (toy_rcu_read_lock, toy_rcu_read_unlock,
-- toy_synchronize_rcu in two halves). Rcu.Thread and Rcu.System are foo_update_a and foo_get_a of
-- rcu/toy_impl/sample_use.c, statement by statement, as a step relation for any number of threads;
-- Rcu.Schedule runs an interleaving. Rcu.Roles says which objects and locks a thread holds at each
-- statement. Rcu.Grace is the same two functions of rcu/use_example/sample_synchronize_rcu.c and
-- rcu/use_example/sample_call_rcu.c, over the kernel's RCU: a grace period waits for the readers that
-- were inside when it began, and a callback runs at any time behind it. Rcu.Grace.Invariant is its
-- invariant, one file for each group of fields. Rcu.Invariant is the invariant of the toy's lock, with
-- which Rcu.Refinement maps each run of the toy to one of Rcu.Grace; what holds there holds of the toy.
-- Rcu.Progress and Rcu.Completion follow a run to its end. Rcu.Quiz is the question at the end of
-- rcu/toy_impl/sample_locking.c: two CPUs, an interrupt handler and a second lock.
-- Rcu.Life is the life of such a module, from its init function to the end of its exit function, with
-- its kthreads and their loops, over an interface (Threads); Rcu.Life.Modules fills it for
-- sample_synchronize_rcu.c, sample_call_rcu.c and the toy. Rcu.Life.Settle and Rcu.Life.Completion
-- follow its exit function to the end.
-- Samples: rcu/use_example (sample_synchronize_rcu.c, sample_call_rcu.c) and the loading of
-- rcu/toy_impl/sample_use.c, one thread after the other. A callback of call_rcu is an entry of a
-- list that `grace_period` runs; Samples.Deferred is the writer thread of sample_call_rcu.c with grace
-- periods between its turns.
-- Hoge: rcu/use_example/_sample.c.
-- SimpleChar: old/hello.c, with reads and writes of one device (SimpleChar.Transfer), the files that
-- are open on the devices (SimpleChar.Files), and loading and unloading (SimpleChar.Lifecycle).
-- Tgw: old/simple.c; Tgw.Calls is any sequence of its calls.
-- Mapped: old/vmm.c (Mapped.Vmm), old/mma.c (Mapped.Mma) and old/gread.c (Mapped.Gread), over slab
-- objects and pages with reference counts, one file of vmm.c from open to release
-- (Mapped.Sessions), and the loading of the other two (Mapped.Loading).
-- UserPages: get_user_pages/sample.c and, in UserPages.Program, user_sample.c. Modules: the loading
-- of sample.c, and that of old/vmm.c, old/simple.c, old/dma.c, old/tinyfuse.c and old/proc.c, with the
-- text of the last.
-- Tuse: old/tuse. Tuse.Request, Tuse.Copy, Tuse.State and Tuse.Device are dev.c (requests, the copy
-- loop, the queues, and the device's reads; Tuse.Readers is the same function for any number of
-- threads, in steps of one lock operation or one change of a list, where two changes of `io` or
-- `processing` may overlap, and ruin the lists then), Tuse.Options, Tuse.Inode, Tuse.Conn and
-- Tuse.Mount are inode.c (mount options, inodes, connections, tuse_fill_super and, over the kernel's
-- mount_nodev and mount_bdev, the two kinds of mount). A mount uses all of them but the reads.
-- Tuse.Loading is the loading of inode.c and dev.c, with the unmounting and the dentries of dir.c.
-- Usr: old/usr. Usr.Pagemap is pagemap_get_entry and virt_to_phys_user of vm.c, Usr.Vm its main,
-- which runs against Mapped.Vmm, Usr.Mm is mm.c, which runs against Mapped.Mma,
-- Usr.Gr is gr.c, which runs against Mapped.Gread, Usr.Kure is kure.c, which runs against Tgw, and
-- Usr.MmapTst is test/mmap_tst.c; Usr.Stdio is what the last two use of C's standard library.
--
-- Integers are natural numbers; where C wraps, `% 2 ^ w` is written out. Three loops run on fuel:
-- tuse_copy_one, for which the number of bytes is enough; tuse_dev_do_read, for which one unit for
-- each request in the queue that is too large, and one more, is enough; and the loop of
-- pagemap_get_entry, where each turn that goes on reads a byte of eight at least, so that nine units
-- are enough.
--
-- Not modelled: old/fuse and old/tmp/fuse, which are copies of fs/fuse of the Linux kernel; empty
-- modules (sample.c, old/test.c, old/file.c), old/usr/time.c, which does not compile, and the
-- scripts; log lines, module metadata and operation tables.
pub mod Base
pub mod Hoge
pub mod Kernel
pub mod Mapped
pub mod Modules
pub mod Rcu
pub mod Samples
pub mod SimpleChar
pub mod Tgw
pub mod Tuse
pub mod UserPages
pub mod Usr
