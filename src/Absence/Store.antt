-- ===== src/Absence/Store.antt =====
-- The operations of NegativePremiseStore.
pub mod Kept
pub mod Checked
pub mod Appearance
mod Tests
use premise_protocol.Base.{
  ℕ, suc, Bool, true, false, not, ◌&&◌, Text, text_eq, Option, none, some, List, [], ◌∷◌, length,
  ltb, leb, if◌then◌else◌, empty,
}
use premise_protocol.Entries.{OrderedMap, lookup}
use premise_protocol.Quota.{Quota, delete, store}
use premise_protocol.Absence.Key.{AbsenceScope, scope_of, negative_premise_key}
use premise_protocol.Absence.{
  Identity, Host, Absent, Observation, AbsenceStore, Check, unknown, not_found, expired,
  invalid_scope, is_required, valid_scope, observed, answer, tenant_of, compare_observed,
}

-- An absence of the resource, of any incarnation.
pub concerns : Text → Text → Absent → Bool
concerns tenant resource e =
    text_eq e.identity.tenant_id tenant && text_eq e.identity.resource resource

-- The loop of invalidateOnAppearance over the entries, and the count of those removed.
pub remove_all : Text → Text → OrderedMap Absent → Quota Absent → ℕ → Quota Absent × ℕ
remove_all tenant resource [] q n = (q, n)
remove_all tenant resource ((k, e) ∷ es) q n =
    remove_all tenant resource es (if concerns tenant resource e then delete tenant_of q k else q)
      (if concerns tenant resource e then suc n else n)

-- Comparisons with the time of a text, false where that is NaN.
abbrev pub earlier : ℕ → Option ℕ → Bool
earlier n none = false
earlier n (some t) = ltb n t

abbrev pub reached : Option ℕ → ℕ → Bool
reached none n = false
reached (some t) n = leb t n

abbrev pub answered : AbsenceStore × Check → AbsenceStore × Option Check
answered (s, c) = (s, some c)

module _ (host : Host) where
  abbrev pub time_of : Text → Option ℕ
  time_of t = if is_required t then host.parse_date t else none

  -- The tests of `putAbsent`.
  pub acceptable : Absent → Bool
  acceptable p = valid_scope p.identity && elim (time_of p.observed_at) [
    | none ↦ false
    | some observed ↦ elim (time_of p.expires_at) [
      | none ↦ false
      | some expires ↦ is_required p.reason && ltb observed expires
    ]
  ]

  -- The store afterwards, and the key, or `none` where it throws.
  pub put_absent : AbsenceStore → Absent → AbsenceStore × Option Text
  put_absent s p =
      if acceptable p
      then elim (negative_premise_key host (scope_of p.identity)) [
        | none ↦ (s, none)
        | some key ↦ (record s { quota = store tenant_of s.quota key p }, some key)
      ]
      else (s, none)

  -- The end of `check`, for the entry of the scope.
  pub check_entry : AbsenceStore → Text → ℕ → Absent → Observation → AbsenceStore × Check
  check_entry s key now e o =
      if earlier now (host.parse_date e.observed_at)
      then (record s { misses = suc s.misses }, answer unknown invalid_scope)
      else if reached (host.parse_date e.expires_at) now
      then (
        record s {
          quota = delete tenant_of s.quota key;
          expirations = suc s.expirations;
          misses = suc s.misses;
        },
        answer unknown expired,
      )
      else (record s { hits = suc s.hits }, compare_observed e o)

  -- The store afterwards, and the answer, or `none` where it throws.
  pub check : AbsenceStore → AbsenceScope → Text → Option Observation → AbsenceStore × Option Check
  check s scope now observation =
      let invalid : AbsenceStore × Option Check =
        (record s { misses = suc s.misses }, some (answer unknown invalid_scope)) in
      if not (valid_scope scope.identity) then invalid else elim (time_of now) [
        | none ↦ invalid
        | some t ↦ elim (observed observation) [
          | none ↦ invalid
          | some o ↦ elim (negative_premise_key host scope) [
            | none ↦ (s, none)
            | some key ↦ elim (lookup key s.quota.entries) [
              | none ↦ (record s { misses = suc s.misses }, some (answer unknown not_found))
              | some e ↦ answered (check_entry s key t e o)
            ]
          ]
        ]
      ]

-- The store afterwards and how many were removed, or `none` where it throws.
pub invalidate_on_appearance : AbsenceStore → Text → Text → Text → AbsenceStore × Option ℕ
invalidate_on_appearance s tenant resource incarnation =
    let (q, n) = remove_all tenant resource s.quota.entries s.quota 0 in
    if is_required tenant && is_required resource && is_required incarnation
    then (record s { quota = q }, some n)
    else (s, none)

pub clear : AbsenceStore → AbsenceStore
clear s = record s { quota = record (s.quota) { entries = []; tenant_counts = empty } }

pub data Call : Type 0 where
  puts : Absent → Call
  checks : AbsenceScope → Text → Option Observation → Call
  appears : Text → Text → Text → Call
  clears : Call

pub step : Host → AbsenceStore → Call → AbsenceStore
step host s (puts p) = (put_absent host s p).0
step host s (checks scope now o) = (check host s scope now o).0
step host s (appears tenant resource incarnation) =
    (invalidate_on_appearance s tenant resource incarnation).0
step host s clears = clear s

pub run : Host → AbsenceStore → List Call → AbsenceStore
run host s [] = s
run host s (x ∷ xs) = run host (step host s x) xs
