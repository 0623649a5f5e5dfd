-- ===== src/Times.antt =====
-- sameOrBefore and assertTimestamp of packages/runtime-core/src/receipt-cache.ts, over Date.parse: a time
-- is `none` where it gives NaN, and is else counted from the least time that it can give.
use premise_protocol.Base.{ℕ, Bool, true, false, Text, Option, none, some, ltb}

-- On timestamps that parse: strictly before.
unfoldable pub before : (Text → Option ℕ) → Text → Text → Bool
before parse_date now expiry = elim (parse_date now) [
  | none ↦ false
  | some n ↦ elim (parse_date expiry) [ none ↦ false | some e ↦ ltb n e ]
]

unfoldable pub is_timestamp : (Text → Option ℕ) → Text → Bool
is_timestamp parse_date t = elim (parse_date t) [ none ↦ false | some _ ↦ true ]
