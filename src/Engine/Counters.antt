-- ===== src/Engine/Counters.antt =====
-- stats.go, and `isEmpty` of mystery_dialer.go.
use prox.Base.{
  ℕ, ◌-◌, Bool, true, false, ℤ, pos, negsuc, add64, ◌-ℤ◌, ltb_ℤ, eqb_ℤ, two63, if◌then◌else◌,
}
use prox.Engine.{Engine, Statistics, Limiter}

-- t.Sub(u) for two times in nanoseconds: the difference, held at the ends of an `int64`.
unfoldable pub saturate : ℤ → ℤ
saturate d =
    if ltb_ℤ d (pos two63)
    then (if ltb_ℤ d (negsuc (two63 - 1)) then negsuc (two63 - 1) else d)
    else pos (two63 - 1)

-- time.Since
unfoldable pub since : ℕ → ℕ → ℤ
unfolding saturate
since now t = saturate (pos now -ℤ pos t)

unfoldable pub dispense : Statistics → Statistics
dispense s = record s { dispensed = add64 s.dispensed (pos 1) }

unfoldable pub count_stale : Statistics → Statistics
count_stale s = record s { stale = add64 s.stale (pos 1) }

unfoldable pub v4 : Statistics → Statistics
v4 s = record s { valid4 = add64 s.valid4 (pos 1) }

unfoldable pub v4a : Statistics → Statistics
v4a s = record s { valid4a = add64 s.valid4a (pos 1) }

unfoldable pub v5 : Statistics → Statistics
v5 s = record s { valid5 = add64 s.valid5 (pos 1) }

unfoldable pub http : Statistics → Statistics
http s = record s { valid_http = add64 s.valid_http (pos 1) }

unfoldable pub get_uptime : ℕ → Statistics → ℤ
unfolding since
get_uptime now s = since now s.birthday

-- The sum of GetTotalValidated.
unfoldable pub total_validated : Statistics → ℤ
total_validated s = add64 (add64 (add64 (add64 (pos 0) s.valid4a) s.valid4) s.valid5) s.valid_http

module _ {P L M : Type 0} where
  abbrev pub get_statistics : Engine P L M → Statistics
  get_statistics e = e.stats

  unfoldable pub get_total_validated : Engine P L M → ℤ
  unfolding total_validated
  get_total_validated e = total_validated (get_statistics e)

  unfoldable pub get_total_bad : ⦃limiter : Limiter L⦄ → Engine P L M → Engine P L M × ℤ
  get_total_bad ⦃limiter⦄ e =
      let patrons = limiter.delete_expired e.bad_prox in
      (record e { bad_prox = patrons }, limiter.item_count patrons)

  unfoldable pub is_empty : Engine P L M → Bool
  unfolding get_total_validated
  is_empty e =
      if eqb_ℤ (get_statistics e).checked (pos 0)
      then true
      else if eqb_ℤ (get_total_validated e) (pos 0)
      then true
      else false
