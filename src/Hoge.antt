-- ===== src/Hoge.antt =====
-- rcu/use_example/_sample.c: a callback of `call_rcu` that swings a pointer.
use kernel_module_memo.Base.{
  ℕ, ◌≡◌, refl, Bool, true, false, not, Option, none, some, List, [], ◌∷◌, if◌then◌else◌,
}
use kernel_module_memo.Kernel.Run.{ok, oops, Cmd, Ends, ◌>>◌}

-- The three static objects.
pub data Name : Type 0 where
  a b c : Name

pub record Hoge : Type 0 where
  pub down : Option Name
  pub name : List ℕ
  pub rcu_tmp : Option Name

-- The objects, whether the callback on `a` is registered, and the names that were printed.
pub record World : Type 0 where
  pub object : Name → Hoge
  pub pending : Bool
  pub printed : List (List ℕ)

abbrev pub set : Name → Hoge → World → World
set a h w = record w { object = λ n. elim n [ a ↦ h | b ↦ w.object b | c ↦ w.object c ] }
set b h w = record w { object = λ n. elim n [ a ↦ w.object a | b ↦ h | c ↦ w.object c ] }
set c h w = record w { object = λ n. elim n [ a ↦ w.object a | b ↦ w.object b | c ↦ h ] }

-- `print_hoge`: the name of the object below, a fault if there is none.
abbrev pub print_below : Option Name → Cmd World (Unit {0})
print_below none w = oops
print_below (some n) w = ok tt (record w { printed = (w.object n).name ∷ w.printed })

unfoldable pub print_hoge : Name → Cmd World (Unit {0})
print_hoge n w = print_below (w.object n).down w

-- `hoge_rcu_callback`, where it is registered.
unfoldable pub hoge_rcu_callback : World → World
hoge_rcu_callback w =
    if w.pending
    then set a (record (w.object a) { down = (w.object a).rcu_tmp }) (record w { pending = false })
    else w

abbrev pub foo1 : List ℕ
foo1 = b'f' ∷ b'o' ∷ b'o' ∷ b'1' ∷ []

abbrev pub foo2 : List ℕ
foo2 = b'f' ∷ b'o' ∷ b'o' ∷ b'2' ∷ []

abbrev pub hoge3 : List ℕ
hoge3 = b'h' ∷ b'o' ∷ b'g' ∷ b'e' ∷ b'3' ∷ []

-- Up to `rcu_read_unlock`: `c` becomes a copy of what is below `a`, with a name of its own.
unfoldable pub prepare : World → World
prepare w =
    let v = set a (record (w.object a) { name = foo1; down = some b }) w in
    let u = set b (record (v.object b) { name = foo2 }) v in
    let t = set c (record (u.object b) { name = hoge3 }) u in
    set a (record (t.object a) { rcu_tmp = some c }) t

-- `init_sample_`; `ran` says whether the grace period is over within the timeout.
unfoldable pub init_sample : (ran : Bool) → Cmd World (Unit {0})
init_sample ran w =
    (print_hoge a
        >> (λ v. ok tt (record v { pending = true }))
        >> (λ v. ok tt (if ran then hoge_rcu_callback v else v))
        >> print_hoge a)
      (prepare w)

-- `init_sample_` never faults: it prints "foo2" at first, and then "hoge3" if the callback has run,
-- and "foo2" again if not, in which case the callback is still pending when it returns.
pub init_sample_lem :
    (ran : Bool) (w : World)
    → Ends
        (λ _ t.
          (t.printed ≡ (if ran then hoge3 else foo2) ∷ foo2 ∷ w.printed) × (t.pending ≡ not ran))
        (init_sample ran w)
unfolding init_sample prepare print_hoge hoge_rcu_callback
init_sample_lem true w = (refl, refl)
init_sample_lem false w = (refl, refl)
