-- ===== src/Time.antt =====
-- `time.Time` as far as the packages use it: an instant and the offset of its zone. Instants before
-- the zero Time (year 1) are left out, and so is the overflow of `Add` some 292 billion years on.
use unlock_catalog_publisher.Base.{ℕ, ◌+◌, ◌%◌, ◌≡◌, Bool, true, arith, ltb, eqb}
use unlock_catalog_publisher.Base.Int.{ℤ, pos}

-- `instant` counts nanoseconds from the zero Time; `offset` is what `Zone` returns.
pub record Time : Type 0 where
  pub instant : ℕ
  pub offset : ℤ

-- `time.Second`, in nanoseconds.
abbrev pub second : ℕ
second = 1000000000

-- `t.IsZero()`
abbrev pub is_zero : Time → Bool
is_zero t = eqb t.instant 0

-- `t.Equal(u)`: the same instant, in whatever zone.
abbrev pub equal : Time → Time → Bool
equal t u = eqb t.instant u.instant

-- `t.Before(u)`
abbrev pub before : Time → Time → Bool
before t u = ltb t.instant u.instant

-- `t.UTC()`
abbrev pub utc : Time → Time
utc t = record t { offset = pos 0 }

-- `t.Add(d)` for a duration that is not negative.
abbrev pub add : Time → ℕ → Time
add t d = record t { instant = t.instant + d }

-- `t.Nanosecond()`
abbrev pub nanosecond : Time → ℕ
nanosecond t = t.instant % second

-- `t.Equal(t.UTC())` holds in every zone.
pub equal-utc : (t : Time) → equal t (utc t) ≡ true
equal-utc t = ground arith
