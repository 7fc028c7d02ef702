-- ===== src/Tuse/Inode.antt =====
-- Inodes: `tuse_iget` and what it calls, in old/tuse/inode.c.
use kernel_module_memo.Base.{
  ℕ, ◌+◌, ◌*◌, ◌/◌, ◌%◌, ◌^◌, Bool, true, false, Option, none, some, if◌then◌else◌, ◌==◌,
}
use kernel_module_memo.Kernel.Run.{Run, ok, oops}

-- The fields of `struct inode` and `struct tuse_inode` that the module uses; `is_new` is I_NEW,
-- `noatime` and `nocmtime` are the flags, `has_ops` says that `i_op` and `i_fop` are set.
pub record Inode : Type 0 where
  pub i_mode : ℕ
  pub i_size : ℕ
  pub i_generation : ℕ
  pub is_new : Bool
  pub noatime : Bool
  pub nocmtime : Bool
  pub has_ops : Bool
  pub nodeid : ℕ
  pub nlookup : ℕ
  pub orig_ino : ℕ

-- `struct tuse_attr`
pub record Attr : Type 0 where
  pub ino : ℕ
  pub size : ℕ
  pub mode : ℕ
  pub nlink : ℕ

-- `mode & S_IFMT`, the four bits from bit 12 on, and `S_ISREG`.
abbrev pub file_type : ℕ → ℕ
file_type mode = mode / 2 ^ 12 % 16 * 2 ^ 12

abbrev pub s_ifreg : ℕ
s_ifreg = 0o100000

abbrev pub is_reg : ℕ → Bool
is_reg mode = file_type mode == s_ifreg

-- `tuse_init_common` and `tuse_init_file_inode`
abbrev pub init_ops : Inode → Inode
init_ops inode = record inode { has_ops = true }

-- `tuse_init_inode`; `none` is the `BUG()`.
unfoldable pub init_inode : Inode → Attr → Option Inode
init_inode inode attr =
    if is_reg (file_type attr.mode)
    then some (init_ops (record inode { i_mode = file_type attr.mode; i_size = attr.size }))
    else none

-- `tuse_inode_eq` and `tuse_inode_set`
unfoldable pub inode_eq : Inode → ℕ → Bool
inode_eq inode nodeid = inode.nodeid == nodeid

unfoldable pub inode_set : Inode → ℕ → Inode
inode_set inode nodeid = record inode { nodeid = nodeid }

-- `tuse_alloc_inode`, with the object that `kmem_cache_alloc` returns.
unfoldable pub alloc_inode : Option Inode → Option Inode
alloc_inode none = none
alloc_inode (some inode) = some (record inode { orig_ino = 0 })

-- Up to `unlock_new_inode`, for an inode with I_NEW; `none` is the `BUG()`.
unfoldable pub fill_new : Inode → ℕ → Attr → Option Inode
unfolding init_inode
fill_new inode generation attr =
    let inode' = record inode {
      noatime = true;
      nocmtime = if is_reg attr.mode then inode.nocmtime else true;
      i_generation = generation;
    } in
    elim (init_inode inode' attr) [ none ↦ none | some i ↦ some (record i { is_new = false }) ]

-- `ti->nlookup++` under `tc->lock`, where `has_conn` says that `sb->s_fs_info` is not NULL.
abbrev pub count_lookup : (has_conn : Bool) → Option Inode → Run (Unit {0}) (Option Inode)
count_lookup true (some i) = ok (some (record i { nlookup = (i.nlookup + 1) % 2 ^ 64 })) tt
count_lookup _ _ = oops

-- `tuse_iget`, where `found` is what `iget5_locked` returns.
unfoldable pub iget :
    (has_conn : Bool) (found : Option Inode) (generation : ℕ) → Attr → Run (Unit {0}) (Option Inode)
unfolding fill_new
iget has_conn none generation attr = ok none tt
iget has_conn (some inode) generation attr =
    count_lookup has_conn (if inode.is_new then fill_new inode generation attr else some inode)

-- `tuse_get_root_inode`
abbrev pub root_attr : ℕ → Attr
root_attr mode = record { ino = 1; size = 0; mode = mode; nlink = 1 }

unfoldable pub get_root_inode :
    (has_conn : Bool) (found : Option Inode) (mode : ℕ) → Run (Unit {0}) (Option Inode)
unfolding iget
get_root_inode has_conn found mode = iget has_conn found 0 (root_attr mode)
