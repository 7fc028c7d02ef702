-- ===== src/Tuse/Conn/References.antt =====
-- Reference counts of connections: the last put, and only that, calls `release`.
use kernel_module_memo.Base.{ℕ, zero, suc, ◌+◌, ◌≡◌, refl, ◌∙◌, ap, none, some, arith}
use kernel_module_memo.Kernel.Run.{ok, Cmd, pure, then_run, ◌>>◌}
use kernel_module_memo.Tuse.Conn.{Conn, World, conn_put}

-- `n` calls of `tuse_conn_put`.
pub puts : ℕ → Cmd World (Unit {0})
puts zero = pure tt
puts (suc n) = conn_put >> puts n

put_more :
    (w : World) (c : Conn) (n : ℕ)
    → w.conn ≡ some c
    → c.count ≡ suc (suc n)
    → conn_put w ≡ ok tt (record w { conn = some (record c { count = suc n }) })
unfolding conn_put
put_more w c n e h = ground arith

put_last :
    (w : World) (c : Conn)
    → w.conn ≡ some c
    → c.count ≡ 1
    → c.destroy_req ≡ none
    → conn_put w
      ≡ ok tt (record w { conn = some (record c { count = 0; released = c.released + 1 }) })
unfolding conn_put
put_last w c e h no_req = ground arith

-- The connection after `m` references are left.
abbrev pub left : Conn → ℕ → Conn
left c zero = record c { count = 0; released = c.released + 1 }
left c (suc m) = record c { count = suc m }

puts_from :
    (n m : ℕ) (w : World) (c : Conn)
    → w.conn ≡ some (record c { count = suc (m + n) })
    → c.destroy_req ≡ none
    → puts (suc n) w ≡ ok tt (record w { conn = some (left c m) })
unfolding puts
puts_from zero zero w c e no_req =
    ap (λ r. then_run r (λ _. pure tt)) (put_last w (record c { count = 1 }) e refl no_req)
puts_from zero (suc m) w c e no_req =
    ap (λ r. then_run r (λ _. pure tt))
      (put_more w (record c { count = suc (suc m + 0) }) m e (omega arith))
puts_from (suc n) m w c e no_req =
    ap (λ r. then_run r (λ _. conn_put >> puts n))
      (put_more w (record c { count = suc (m + suc n) }) (m + n) e (omega arith))
    ∙ puts_from n m (record w { conn = some (record c { count = suc (m + n) }) }) c refl no_req

-- A connection with no DESTROY request that has `m + suc n` references still has `m` after
-- `suc n` puts, and `release` has been called once more if `m` is 0, and not at all else.
pub puts_lem :
    (n m : ℕ) (w : World) (c : Conn)
    → w.conn ≡ some c
    → c.count ≡ m + suc n
    → c.destroy_req ≡ none
    → puts (suc n) w ≡ ok tt (record w { conn = some (left c m) })
puts_lem n m w c e h no_req =
    let shape : c.count ≡ suc (m + n) = omega arith in
    puts_from n m w c (e ∙ ap (λ k. some (record c { count = k })) shape) no_req
