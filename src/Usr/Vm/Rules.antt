-- ===== src/Usr/Vm/Rules.antt =====
-- Steps of a proof about `main` of old/usr/vm.c, and the strings that it compares.
use kernel_module_memo.Base.{
  ℕ, ◌≤◌, ◌≡◌, refl, Bool, true, List, ◌∷◌, ◌++◌, length, drop, arith, length-drop,
}
use kernel_module_memo.Kernel.Run.{Run, ok, oops, Cmd, Ends, then_run}
use kernel_module_memo.Mapped.{World}
use kernel_module_memo.Mapped.Vmm.{asdf}
use kernel_module_memo.Mapped.Lifetime
use kernel_module_memo.Mapped.Lifetime.{with_asdf, filled, open_lem, zeroed_length, asdf_refs}
use kernel_module_memo.Usr.Vm.{Process, in_kernel, assert, same_string, same_bytes, qwer, zxcv}

pub assert_then :
    {B : Type 0} (Q : B → Process → Type 0) (b : Bool) (s : Process) (k : Unit {0} → Cmd Process B)
    → b ≡ true
    → Ends Q (k tt s)
    → Ends Q (then_run (assert b s) k)
assert_then Q b s k e h = rw e h

-- A system call leaves the mappings alone.
pub kernel_then :
    {A B : Type 0} (P : A → World → Type 0) (Q : B → Process → Type 0) (c : Cmd World A)
    (s : Process) (k : A → Cmd Process B)
    → Ends P (c s.kernel)
    → ((a : A) (t : Process)
        → P a t.kernel
        → t.page_of ≡ s.page_of
        → t.vma ≡ s.vma
        → Ends Q (k a t))
    → Ends Q (then_run (in_kernel c s) k)
kernel_then {A} P Q c s k h next = ends (c s.kernel) h
  where
    ends :
        (r : Run World A)
        → Ends P r
        → Ends Q (then_run (elim r [ oops ↦ oops | ok a w ↦ ok a (record s { kernel = w }) ]) k)
    ends (ok a w) h = next a (record s { kernel = w }) h refl refl
    ends oops h = absurd h

abbrev pub with_qwer : List ℕ
with_qwer = qwer ++ 0 ∷ drop 5 with_asdf.bytes

length-with_asdf : length with_asdf.bytes ≡ 4096
unfolding with_asdf
length-with_asdf = omega (arith, length-drop 4 Lifetime.zeroed.bytes, zeroed_length)

pub length-with_qwer : 4 ≤ length with_qwer
length-with_qwer = omega arith

pub first_is_asdf : same_string asdf with_asdf.bytes ≡ true
unfolding same_string with_asdf
first_is_asdf = refl

pub qwer_is_there : same_string qwer with_qwer ≡ true
unfolding same_string
qwer_is_there = refl

pub same_qwer : same_bytes qwer qwer ≡ true
unfolding same_bytes
same_qwer = refl

pub zxcv_is_there :
    (bytes : List ℕ) → bytes ≡ zxcv → same_string zxcv (bytes ++ drop 4 with_qwer) ≡ true
unfolding same_string
zxcv_is_there bytes e = rw e refl
