-- ===== src/Tuse/Options/Accepted.antt =====
-- Which option texts `parse_tuse_opt` accepts, and what it makes of them.
use kernel_module_memo.Base.{
  ℕ, ◌-◌, ◌^◌, ◌≡◌, refl, ◌∙◌, ap, Bool, true, false, ◌&&◌, ◌||◌, Option, none, some, is_some, List,
  [], ◌∷◌, if◌then◌else◌, arith,
}
use kernel_module_memo.Tuse.Options.{
  MountData, no_options, Opt, opt_fd, opt_user_id, opt_group_id, opt_err, Text, Parser,
  tuse_match_uint, one_word, each_word, finish, given, parse_tuse_opt,
}

-- What the words further on say of an option, or else what this word says.
pick : Opt → Opt × Option ℕ → Option ℕ → Option ℕ
pick o w (some later) = some later
pick opt_fd (opt_fd, v) none = v
pick opt_user_id (opt_user_id, v) none = v
pick opt_group_id (opt_group_id, v) none = v
pick _ _ none = none

or_else : Option ℕ → ℕ → ℕ
or_else none d = d
or_else (some v) d = v

updated : (fd user_id group_id : Option ℕ) → MountData → MountData
unfolding or_else
updated f u g d = record d {
  fd = or_else f d.fd;
  user_id = or_else u d.user_id;
  group_id = or_else g d.group_id;
  fd_present = is_some f || d.fd_present;
  user_id_present = is_some u || d.user_id_present;
  group_id_present = is_some g || d.group_id_present;
}

assign : MountData → Opt × Option ℕ → Option MountData
assign d (o, none) = none
assign d (opt_fd, some v) = some (record d { fd = v; fd_present = true })
assign d (opt_user_id, some v) = some (record d { user_id = v; user_id_present = true })
assign d (opt_group_id, some v) = some (record d { group_id = v; group_id_present = true })
assign d (opt_err, some v) = some d

abbrev and_then : Option MountData → (MountData → Option MountData) → Option MountData
and_then none f = none
and_then (some d) f = f d

-- One acceptable word, and then the words behind it.
assign-updated :
    (d : MountData) (w : Opt × Option ℕ) (f u g : Option ℕ) (rest : Bool)
    (next : MountData → Option MountData)
    → ((d' : MountData) → next d' ≡ (if rest then some (updated f u g d') else none))
    → and_then (assign d w) next ≡ (
        if is_some w.1 && rest
        then some (updated (pick opt_fd w f) (pick opt_user_id w u) (pick opt_group_id w g) d)
        else none)
unfolding assign updated pick
assign-updated d (opt_fd, none) f u g rest next h = refl
assign-updated d (opt_user_id, none) f u g rest next h = refl
assign-updated d (opt_group_id, none) f u g rest next h = refl
assign-updated d (opt_err, none) f u g rest next h = refl
assign-updated d (opt_fd, some v) f u g rest next h =
    ground (arith, h (record d { fd = v; fd_present = true }))
assign-updated d (opt_user_id, some v) f u g rest next h =
    ground (arith, h (record d { user_id = v; user_id_present = true }))
assign-updated d (opt_group_id, some v) f u g rest next h =
    ground (arith, h (record d { group_id = v; group_id_present = true }))
assign-updated d (opt_err, some v) f u g rest next h = ground (arith, h d)

-- The result of `parse_tuse_opt`, as a function of which options the text gives.
unfoldable pub accepted : Bool → (fd user_id group_id : Option ℕ) → Option MountData
accepted true (some f) (some u) (some g) = some (record {
  fd = f;
  rootmode = 0;
  user_id = u;
  group_id = g;
  fd_present = true;
  user_id_present = true;
  group_id_present = true;
  max_read = 2 ^ 32 - 1;
  blksize = 512;
})
accepted _ _ _ _ = none

accepted_lem :
    (all : Bool) (f u g : Option ℕ)
    → finish (if all then some (updated f u g no_options) else none) ≡ accepted all f u g
unfolding updated finish accepted
accepted_lem false f u g = refl
accepted_lem true none u g = refl
accepted_lem true (some f) none g = refl
accepted_lem true (some f) (some u) none = refl
accepted_lem true (some f) (some u) (some g) = refl

module _ (k : Parser) where
  open k use {match_token, match_int, make_kuid, uid_valid, make_kgid, gid_valid}

  checked : (ℕ → ℕ) → (ℕ → Bool) → Option ℕ → Option ℕ
  checked make valid none = none
  checked make valid (some v) = if valid (make v) then some (make v) else none

  -- What a word sets, by the option that it names: `none` if it is not acceptable.
  unfoldable pub value : Text → Opt × Option ℕ
  unfolding checked
  value w = elim (match_token w).0 [
    | opt_fd ↦ (opt_fd, match_int (match_token w).1)
    | opt_user_id ↦ (opt_user_id, checked make_kuid uid_valid (tuse_match_uint k (match_token w).1))
    | opt_group_id ↦
        (opt_group_id, checked make_kgid gid_valid (tuse_match_uint k (match_token w).1))
    | opt_err ↦ (opt_err, none)
  ]

  -- Every word that is not empty is acceptable.
  unfoldable pub acceptable : List Text → Bool
  acceptable [] = true
  acceptable ([] ∷ ws) = acceptable ws
  acceptable ((c ∷ cs) ∷ ws) = is_some (value (c ∷ cs)).1 && acceptable ws

  -- The value that the last word for an option gives it.
  unfoldable pub last : Opt → List Text → Option ℕ
  unfolding pick
  last o [] = none
  last o ([] ∷ ws) = last o ws
  last o ((c ∷ cs) ∷ ws) = pick o (value (c ∷ cs)) (last o ws)

  one_word-assign : (d : MountData) (w : Text) → one_word k d w ≡ assign d (value w)
  unfolding one_word assign value
  one_word-assign d w = ground arith

  each_word-nil : (d : MountData) (ws : List Text) → each_word k ([] ∷ ws) d ≡ each_word k ws d
  unfolding each_word
  each_word-nil d ws = refl

  each_word-suc :
      (d : MountData) (c : ℕ) (cs : Text) (ws : List Text)
      → each_word k ((c ∷ cs) ∷ ws) d ≡ and_then (one_word k d (c ∷ cs)) (each_word k ws)
  unfolding each_word
  each_word-suc d c cs ws = ground arith

  each_word-eq :
      (ws : List Text) (d : MountData)
      → each_word k ws d ≡ (
          if acceptable ws
          then some (updated (last opt_fd ws) (last opt_user_id ws) (last opt_group_id ws) d)
          else none)
  unfolding acceptable last
  each_word-eq [] d = unfold each_word updated in refl
  each_word-eq ([] ∷ ws) d = each_word-nil d ws ∙ each_word-eq ws d
  each_word-eq ((c ∷ cs) ∷ ws) d =
      each_word-suc d c cs ws
      ∙ ap (λ r. and_then r (each_word k ws)) (one_word-assign d (c ∷ cs))
      ∙ assign-updated d (value (c ∷ cs)) (last opt_fd ws) (last opt_user_id ws)
          (last opt_group_id ws) (acceptable ws) (each_word k ws) (each_word-eq ws)

  -- `parse_tuse_opt` accepts a text exactly if every word between commas that is not empty names an
  -- option with a value that the kernel accepts, and each of the three options is given; then each
  -- has the value of its last word, `max_read` is the greatest `unsigned`, `blksize` is 512, and
  -- `rootmode` is 0, whatever the text says.
  pub parse_tuse_opt_lem :
      (opt : Option Text)
      → let ws = given opt in
        parse_tuse_opt k opt
        ≡ accepted (acceptable ws) (last opt_fd ws) (last opt_user_id ws) (last opt_group_id ws)
  unfolding parse_tuse_opt
  parse_tuse_opt_lem opt =
      let ws = given opt in
      ap finish (each_word-eq ws no_options)
      ∙ accepted_lem (acceptable ws) (last opt_fd ws) (last opt_user_id ws) (last opt_group_id ws)
