-- ===== src/Tuse/Copy/Whole.antt =====
-- `tuse_copy_one` ends, and stores a prefix of its bytes: all of them if it returns 0.
use kernel_module_memo.Base.{
  ℕ, zero, suc, ◌+◌, ◌-◌, ◌≤◌, ◌<◌, ◌≡◌, refl, sym, ap, ◌∙◌, Bool, true, false, Option, none, some,
  is_some, List, [], ◌∷◌, ◌++◌, append_nil, append_assoc, drop, take, min, arith, ◌⊎◌, inl, inr,
  if◌then◌else◌, ◌==◌,
}
use kernel_module_memo.Kernel.Run.{Errno, Run, ok, oops, Ends}
use kernel_module_memo.Tuse.Copy.{
  Page, Cursor, Log, Copy, Loop, finished, copy_do, copy_one, filled,
}

take-drop : (n k : ℕ) (xs : List ℕ) → take n xs ++ take k (drop n xs) ≡ take (n + k) xs
take-drop zero k xs = ap (λ m. take m xs) (omega arith)
take-drop (suc n) zero [] = ap (λ m. take m []) (let e : suc n ≡ suc n + 0 = omega arith in e)
take-drop (suc n) (suc k) [] =
    ap (λ m. take m []) (let e : suc (n + suc k) ≡ suc n + suc k = omega arith in e)
take-drop (suc n) k (x ∷ xs) =
    let e : suc (n + k) ≡ suc n + k = omega arith in
    ap (◌∷◌ x) (take-drop n k xs) ∙ ap (λ m. take m (x ∷ xs)) e

-- The cursor writes to user memory, and has a page wherever it has room.
abbrev pub IsReady : {Iter : Type 0} → Cursor Iter → Type 0
IsReady c = (c.write ≡ true) × (0 < c.len → is_some c.pg ≡ true)

-- What `tuse_copy_fill` is for: it fails, or it gives a page with room.
abbrev pub Fills : {Iter : Type 0} → (Cursor Iter → Option Errno × Cursor Iter) → Type 0
Fills fill =
    (c : _)
    → (fill c).0 ≡ none
    → (0 < (fill c).1.len) × (is_some (fill c).1.pg ≡ true) × ((fill c).1.write ≡ c.write)

-- From `stored` on, the bytes of `val` have been stored: `size` of them on success, fewer on
-- failure.
abbrev pub Stores : {Iter : Type 0} → List ℕ → List ℕ → ℕ → Loop → Copy Iter → Type 0
Stores stored val size r s =
    (k : ℕ) × (s.log.stored ≡ stored ++ take k val)
    × (((r ≡ finished none) × (k ≡ size)) ⊎ ((e : Errno) × (r ≡ finished (some e)) × (k < size)))

module _ {Iter : Type 0} (load : Page → (offset size : ℕ) → List ℕ)
    (fill : Cursor Iter → Option Errno × Cursor Iter) (fills : Fills fill) where
  -- One turn of the loop stores `n + 1` bytes, and the rest of the loop what is left.
  Stores-more :
      (stored val : List ℕ) (size ncpy : ℕ) (r : Loop) (s : Copy Iter)
      → ncpy ≤ size
      → Stores (stored ++ take ncpy val) (drop ncpy val) (size - ncpy) r s
      → Stores stored val size r s
  Stores-more stored val size ncpy r s le (k, e, inl (f, g)) = (
    ncpy + k,
    e
        ∙ append_assoc stored (take ncpy val) (take k (drop ncpy val))
        ∙ ap (λ t. stored ++ t) (take-drop ncpy k val),
    inl (f, omega arith),
  )
  Stores-more stored val size ncpy r s le (k, e, inr (x, f, g)) = (
    ncpy + k,
    e
        ∙ append_assoc stored (take ncpy val) (take k (drop ncpy val))
        ∙ ap (λ t. stored ++ t) (take-drop ncpy k val),
    inr (x, f, omega arith),
  )

  more_run :
      (stored val : List ℕ) (size ncpy : ℕ) (r : Run (Copy Iter) Loop)
      → ncpy ≤ size
      → Ends (Stores (stored ++ take ncpy val) (drop ncpy val) (size - ncpy)) r
      → Ends (Stores stored val size) r
  more_run stored val size ncpy oops le h = h
  more_run stored val size ncpy (ok r s) le h = Stores-more stored val size ncpy r s le h

  -- The rest of the loop, on `fuel`.
  abbrev Rest : ℕ → Type 0
  Rest fuel =
      (val : List ℕ) (size : ℕ) (s : Copy Iter)
      → size ≤ fuel
      → IsReady s.cursor
      → Ends (Stores s.log.stored val size) (copy_one load fill fuel val size s)

  -- One call of `tuse_copy_do` where there is room, and the rest.
  with_room :
      (fuel n : ℕ) (val : List ℕ) (c : Cursor Iter) (log : Log) (write : Bool) (pg : Option Page)
      → Rest fuel
      → n ≤ fuel
      → write ≡ true
      → is_some pg ≡ true
      → 0 < c.len
      → Ends
          (Stores log.stored val (suc n))
          (elim (copy_do load val
            (suc n)
            (record { cursor = record c { write = write; pg = pg }; log = log })) [
              | oops ↦ oops
              | ok r s' ↦ copy_one load fill fuel r.0 r.1 s'
            ])
  unfolding copy_do
  with_room fuel n val c log write none rest le w p room = cc
  with_room fuel n val c log false (some pg) rest le w p room = cc
  with_room fuel n val c log true (some pg) rest le w p room =
      let ncpy = min (suc n) c.len in
      more_run log.stored val (suc n) ncpy _ (omega arith)
        (rest (drop ncpy val) (suc n - ncpy) _ (omega arith) (refl, λ _. refl))

  by_fill :
      (fuel n : ℕ) (val : List ℕ) (log : Log) (f : Option Errno × Cursor Iter)
      → Rest fuel
      → n ≤ fuel
      → (f.0 ≡ none → (0 < f.1.len) × (is_some f.1.pg ≡ true) × (f.1.write ≡ true))
      → Ends (Stores log.stored val (suc n)) (elim f.0 [
        | some e ↦ ok (finished (some e)) (record { cursor = f.1; log = log })
        | none ↦ elim (copy_do load val (suc n) (record { cursor = f.1; log = log })) [
          | oops ↦ oops
          | ok r s' ↦ copy_one load fill fuel r.0 r.1 s'
        ]
      ])
  by_fill fuel n val log (some e, c) rest le ready =
      (0, sym (append_nil log.stored), inr (e, refl, omega arith))
  by_fill fuel n val log (none, c) rest le ready =
      let (room, page, writes) = ready refl in
      with_room fuel n val c log c.write c.pg rest le writes page room

  filled_at :
      (c : Cursor Iter) (empty : Bool)
      → c.len == 0 ≡ empty
      → IsReady c
      → let f : Option Errno × Cursor Iter = if empty then fill c else (none, c) in
        f.0 ≡ none → (0 < f.1.len) × (is_some f.1.pg ≡ true) × (f.1.write ≡ true)
  filled_at c true h ready e =
      let (room, page, writes) = fills c e in (room, page, writes ∙ ready.0)
  filled_at c false h ready e = let room : 0 < c.len = ground arith in (room, ready.1 room, ready.0)

  filled_ready :
      (c : Cursor Iter)
      → IsReady c
      → (filled load fill c).0 ≡ none
      → (0 < (filled load fill c).1.len)
        × (is_some (filled load fill c).1.pg ≡ true)
        × ((filled load fill c).1.write ≡ true)
  unfolding filled
  filled_ready c = filled_at c (c.len == 0) refl

  -- If `tuse_copy_fill` fails or gives a page with room, and the cursor is for writing and has a
  -- page wherever it has room, `tuse_copy_one` to user memory ends on `size` fuel, without a fault:
  -- with 0, and then it has stored the first `size` bytes of `val`, in their order and behind what
  -- was stored before; or with an error, and then a shorter prefix.
  pub copy_one_all :
      (fuel : ℕ) (val : List ℕ) (size : ℕ) (s : Copy Iter)
      → size ≤ fuel
      → IsReady s.cursor
      → Ends (Stores s.log.stored val size) (copy_one load fill fuel val size s)
  unfolding copy_one
  copy_one_all fuel val zero s le ready = (0, sym (append_nil s.log.stored), inl (refl, refl))
  copy_one_all zero val (suc n) s le ready = elim le [ ]
  copy_one_all (suc fuel) val (suc n) s le ready =
      by_fill fuel n val s.log (filled load fill s.cursor) (copy_one_all fuel) (omega arith)
        (filled_ready s.cursor ready)
