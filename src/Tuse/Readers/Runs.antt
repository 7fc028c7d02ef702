-- ===== src/Tuse/Readers/Runs.antt =====
-- Runs of one thread among the readers of old/tuse/dev.c.
use mathlib.Core.Path.{subst}
use kernel_module_memo.Base.{ℕ, ◌<◌, ◌≡◌, ◌≢◌, sym}
use kernel_module_memo.Base.Family.{update}
use kernel_module_memo.Kernel.Heap.{Ptr}
use kernel_module_memo.Tuse.Readers.{Memory, Request, Pc, Move, System, pick, Reach, later}

-- Thread `i` is at `there`, and the others are where they were.
abbrev pub MovesTo : ℕ → Pc → System → System → Type 0
MovesTo i there s t = (t.pc i ≡ there) × ((j : ℕ) → j ≢ i → t.pc j ≡ s.pc j)

-- A move of thread `i`.
pub go :
    {requests : Ptr → Request} {n : ℕ} (i : ℕ)
    → i < n
    → {s : System} {here there : Pc} {m : Memory} → Reach requests n s
    → s.pc i ≡ here
    → Move requests s.mem here m there
    → Reach requests n (record s { mem = m; pc = update s.pc i there })
go {requests} i lt {s} {there} {m} r e mv =
    later r (pick i lt (subst (λ p. Move requests s.mem p m there) (sym e) mv))
