-- ===== src/Rcu/Roles.antt =====
-- Which pointers a thread of the samples holds, which locks, and what its own object contains.
use kernel_module_memo.Base.{ℕ, ◌≡◌, refl, ◌∙◌, Bool, true, false, Option, none, some, is_some}
use kernel_module_memo.Rcu.Thread.{
  Foo, Ptr, Pc, idle, entered, derefed, loaded, allocated, locked, fetched, copied, filled,
  published, unlocked, waited, expired,
}

-- The object that this thread alone may write or free.
abbrev pub own : Pc → Option Ptr
own (allocated n v) = n
own (locked n v) = n
own (fetched n v q) = n
own (copied p v q) = some p
own (filled p v q) = some p
own (published q) = some q
own (unlocked q) = some q
own (waited q) = some q
own (expired q) = some q
own _ = none

-- The object that a reader looks at.
abbrev pub seen : Pc → Option Ptr
seen (derefed p) = some p
seen _ = none

-- What a writer takes for the current object.
abbrev pub current : Pc → Option Ptr
current (fetched n v q) = some q
current (copied p v q) = some q
current (filled p v q) = some q
current _ = none

-- Inside the read-side critical section, and under `foo_mutex`.
abbrev pub reading : Pc → ℕ
reading entered = 1
reading (derefed _) = 1
reading (loaded _) = 1
reading _ = 0

abbrev pub updating : Pc → Bool
updating (locked _ _) = true
updating (fetched _ _ _) = true
updating (copied _ _ _) = true
updating (filled _ _ _) = true
updating (published _) = true
updating _ = false

abbrev pub IsLive : (Ptr → Option Foo) → Ptr → Type 0
IsLive cell p = is_some (cell p) ≡ true

-- What the contents of a new object are, up to the store of `new_a` and behind it.
abbrev pub IsFilled : ℕ → ℕ → (Ptr → Option Foo) → Pc → Type 0
IsFilled b c cell (copied p v q) = (x : ℕ) × (cell p ≡ some (record { a = x; b = b; c = c }))
IsFilled b c cell (filled p v q) = cell p ≡ some (record { a = v; b = b; c = c })
IsFilled b c cell _ = Unit

-- `IsFilled` looks at the thread's own object only.
pub IsFilled-frame :
    (b c : ℕ) (cell cell' : Ptr → Option Foo) (p : Pc)
    → ((q : Ptr) → own p ≡ some q → cell' q ≡ cell q)
    → IsFilled b c cell p
    → IsFilled b c cell' p
IsFilled-frame b c cell cell' (copied p v q) same f = (f.0, same p refl ∙ f.1)
IsFilled-frame b c cell cell' (filled p v q) same f = same p refl ∙ f
IsFilled-frame b c cell cell' idle same f = tt
IsFilled-frame b c cell cell' _ same f = tt
