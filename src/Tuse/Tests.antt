-- ===== src/Tuse/Tests.antt =====
-- The `tuse` theorems at a concrete kernel, whose parser reads options like "fd=7" by their first
-- letter and their last digit.
use kernel_module_memo.Base.{
  ℕ, ◌-◌, ◌≡◌, refl, ◌∙◌, true, false, Option, none, some, [], ◌∷◌, ◌==◌, if◌then◌else◌,
}
use kernel_module_memo.Kernel.Run.{einval, Ends}
use kernel_module_memo.Kernel.Heap.{Heap}
use kernel_module_memo.Tuse.Loading
use kernel_module_memo.Tuse.Loading.Outcome.{unloaded, LoadsOrNot, load-unload}
use kernel_module_memo.Tuse.Request.{Req, Object, Grants, request_init, inline}
use kernel_module_memo.Tuse.Options.{
  MountData, Text, Opt, opt_fd, opt_user_id, opt_group_id, opt_err, Parser, words, given,
  parse_tuse_opt, tuse_match_uint,
}
use kernel_module_memo.Tuse.Options.Accepted.{acceptable, last, accepted, value, parse_tuse_opt_lem}
use kernel_module_memo.Tuse.Conn.{Conn, World, conn_init}
use kernel_module_memo.Tuse.Mount.{Kernel, fill_super}
use kernel_module_memo.Tuse.Mount.Outcome.{Refuses, fill_super-Refuses}

abbrev junk : Req
junk = request_init inline inline 0

abbrev slab : Heap Object
slab = record { next = 5; cell = λ p. none }

abbrev no_second_array : Grants
no_second_array = record { req = true; pages = true; page_descs = false }

last_digit : Text → ℕ
last_digit [] = 0
last_digit (c ∷ []) = c - b'0'
last_digit (c ∷ cs) = last_digit cs

key : ℕ → Opt
key c =
    if c == b'f'
    then opt_fd
    else if c == b'u'
    then opt_user_id
    else if c == b'g'
    then opt_group_id
    else opt_err

token : Text → Opt × Text
unfolding key
token [] = (opt_err, [])
token (c ∷ cs) = (key c, cs)

abbrev parser : Parser
parser = record {
  match_token = token;
  match_int = λ s. some (last_digit s);
  match_strdup = some;
  kstrtouint = λ s. some (last_digit s);
  make_kuid = λ u. u;
  uid_valid = λ u. true;
  make_kgid = λ g. g;
  gid_valid = λ g. true;
}

-- "fd=7,u=1,,g=2,fd=3"
abbrev text : Option Text
text = some (
    b'f' ∷ b'd' ∷ b'=' ∷ b'7' ∷ b',' ∷ b'u' ∷ b'=' ∷ b'1' ∷ b',' ∷ b',' ∷ b'g' ∷ b'=' ∷ b'2' ∷ b','
    ∷ b'f' ∷ b'd' ∷ b'=' ∷ b'3' ∷ [])

abbrev mount_data : MountData
mount_data = record {
  fd = 3;
  rootmode = 0;
  user_id = 1;
  group_id = 2;
  fd_present = true;
  user_id_present = true;
  group_id_present = true;
  max_read = 4294967295;
  blksize = 512;
}

parse_tuse_opt_lem_example :
    parse_tuse_opt parser text
    ≡ accepted
        (acceptable parser (given text))
        (last parser opt_fd (given text))
        (last parser opt_user_id (given text))
        (last parser opt_group_id (given text))
parse_tuse_opt_lem_example = parse_tuse_opt_lem parser text

accepts : parse_tuse_opt parser text ≡ some mount_data
unfolding accepted acceptable last given words value token key last_digit tuse_match_uint
accepts = parse_tuse_opt_lem_example ∙ refl

abbrev kernel : Kernel
kernel = record {
  mandlock = false;
  is_bdev = true;
  has_fs_info = false;
  options = text;
  file = λ fd. if fd == 3 then some true else none;
  conn = true;
  dev = true;
  inode = none;
  dentry = true;
  junk = junk;
  init_req = no_second_array;
  destroy_req = no_second_array;
}

abbrev idle : World
idle = record { slab = slab; conn = none; dev = none; files = 0; dentries = 0 }

fill_super-Refuses_example : Refuses idle (fill_super parser kernel idle)
fill_super-Refuses_example = fill_super-Refuses parser kernel idle refl

abbrev three : Conn
three = record conn_init { count = 3 }

abbrev mounted : World
mounted = record idle { conn = some three }

-- All is granted but the device.
abbrev no_device : Loading.Answers
no_device = record {
  inode_cache = true;
  register_filesystem = none;
  req_cache = true;
  misc_register = some einval;
}

load-unload_example : Ends LoadsOrNot (Loading.init no_device unloaded)
load-unload_example = load-unload no_device
