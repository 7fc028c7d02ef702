-- ===== src/Tuse/Options.antt =====
-- The mount options: `parse_tuse_opt` of old/tuse/inode.c.
pub mod Accepted
use kernel_module_memo.Base.{
  ℕ, ◌-◌, ◌^◌, Bool, true, false, Option, none, some, List, [], ◌∷◌, ◌==◌, if◌then◌else◌,
}

-- `struct tuse_mount_data`; `kuid_t` and `kgid_t` by their values, `int fd` by its bit pattern.
pub record MountData : Type 0 where
  pub fd : ℕ
  pub rootmode : ℕ
  pub user_id : ℕ
  pub group_id : ℕ
  pub fd_present : Bool
  pub user_id_present : Bool
  pub group_id_present : Bool
  pub max_read : ℕ
  pub blksize : ℕ

abbrev pub tuse_default_blksize : ℕ
tuse_default_blksize = 512

-- The `memset`, and the two fields that are set behind it. `~0` is an `unsigned`.
abbrev pub no_options : MountData
no_options = record {
  fd = 0;
  rootmode = 0;
  user_id = 0;
  group_id = 0;
  fd_present = false;
  user_id_present = false;
  group_id_present = false;
  max_read = 2 ^ 32 - 1;
  blksize = tuse_default_blksize;
}

-- The anonymous `enum` of `tokens`.
pub data Opt : Type 0 where
  opt_fd opt_user_id opt_group_id opt_err : Opt

-- A text is the list of its bytes, without the NUL.
abbrev pub Text : Type 0
Text = List ℕ

-- What the parser calls in the kernel: `match_token` over `tokens`, with its first argument,
-- `match_int`, `match_strdup` and `kstrtouint` in base 10, `make_kuid` and `make_kgid` in the
-- caller's user namespace, and the tests of their results.
pub record Parser : Type 0 where
  pub match_token : Text → Opt × Text
  pub match_int : Text → Option ℕ
  pub match_strdup : Text → Option Text
  pub kstrtouint : Text → Option ℕ
  pub make_kuid : ℕ → ℕ
  pub uid_valid : ℕ → Bool
  pub make_kgid : ℕ → ℕ
  pub gid_valid : ℕ → Bool

-- The words that `strsep` cuts at commas, one by one.
cons_first : ℕ → List Text → List Text
cons_first c [] = (c ∷ []) ∷ []
cons_first c (w ∷ ws) = (c ∷ w) ∷ ws

unfoldable pub words : Text → List Text
unfolding cons_first
words [] = [] ∷ []
words (c ∷ cs) = let rest = words cs in if c == b',' then [] ∷ rest else cons_first c rest

-- What stands behind the loop.
all_present : MountData → Option MountData
all_present d =
    if d.fd_present
    then if d.user_id_present then if d.group_id_present then some d else none else none
    else none

finish : Option MountData → Option MountData
unfolding all_present
finish none = none
finish (some d) = all_present d

-- `opt` may be NULL.
unfoldable pub given : Option Text → List Text
given none = []
given (some opt) = words opt

module _ (k : Parser) where
  open k use {
    match_token, match_int, match_strdup, kstrtouint, make_kuid, uid_valid, make_kgid, gid_valid,
  }

  -- `tuse_match_uint`; `none` is a non-zero result.
  unfoldable pub tuse_match_uint : Text → Option ℕ
  tuse_match_uint s = elim (match_strdup s) [ none ↦ none | some buf ↦ kstrtouint buf ]

  set_fd : MountData → Option ℕ → Option MountData
  set_fd d none = none
  set_fd d (some value) = some (record d { fd = value; fd_present = true })

  set_user_id : MountData → Option ℕ → Option MountData
  set_user_id d none = none
  set_user_id d (some uv) =
      if uid_valid (make_kuid uv)
      then some (record d { user_id = make_kuid uv; user_id_present = true })
      else none

  set_group_id : MountData → Option ℕ → Option MountData
  set_group_id d none = none
  set_group_id d (some uv) =
      if gid_valid (make_kgid uv)
      then some (record d { group_id = make_kgid uv; group_id_present = true })
      else none

  -- The `switch`; `none` is `return 0`.
  set_option : MountData → Opt → Text → Option MountData
  unfolding set_fd set_user_id set_group_id tuse_match_uint
  set_option d opt_fd arg = set_fd d (match_int arg)
  set_option d opt_user_id arg = set_user_id d (tuse_match_uint arg)
  set_option d opt_group_id arg = set_group_id d (tuse_match_uint arg)
  set_option d opt_err arg = none

  -- The body of the loop for a word that is not empty.
  one_word : MountData → Text → Option MountData
  unfolding set_option
  one_word d p = set_option d (match_token p).0 (match_token p).1

  -- The `while` loop.
  each_word : List Text → MountData → Option MountData
  unfolding one_word
  each_word [] d = some d
  each_word ([] ∷ ps) d = each_word ps d
  each_word ((c ∷ cs) ∷ ps) d = elim (one_word d (c ∷ cs)) [
    | none ↦ none
    | some d' ↦ each_word ps d'
  ]

  -- `parse_tuse_opt`: `none` is the result 0, `some d` the result 1. `opt` may be NULL.
  unfoldable pub parse_tuse_opt : Option Text → Option MountData
  unfolding each_word finish given words
  parse_tuse_opt opt = finish (each_word (given opt) no_options)
