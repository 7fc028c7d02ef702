-- ===== src/UserPages/Tests.antt =====
-- The program of get_user_pages/user_sample.c on a page that holds the number 9 and then "ok".
use kernel_module_memo.Base.{◌≡◌, Bool, true, false, ◌∷◌, ◌++◌, replicate, drop}
use kernel_module_memo.Kernel.Run.{Errno, oops}
use kernel_module_memo.Usr.Stdio.{c_string}
use kernel_module_memo.UserPages.{Space, Got, pinned, nothing, failed}
use kernel_module_memo.UserPages.Program.{main, rewritten, runs_on, program_prints}

abbrev space : Space
space = record {
  readers = 0;
  bytes = replicate 8 9 ++ (b'o' ∷ b'k' ∷ 0 ∷ replicate 4085 9);
  refs = 1;
  kmaps = 0;
}

program_prints_example :
    (main true true pinned space ≡ rewritten (c_string (drop 7 space.bytes)) space)
    × (main true true nothing space ≡ runs_on (c_string (drop 7 space.bytes)) space)
    × ((got : Got) → main false true got space ≡ runs_on (c_string (drop 7 space.bytes)) space)
    × ((e : Errno) → main true true (failed e) space ≡ oops)
    × ((opens : Bool) (got : Got) → main opens false got space ≡ oops)
program_prints_example = program_prints space
