-- ===== src/Bursts/Tests.antt =====
-- The theorem on bursts at a concrete input.
use premise_protocol.Base.{ℕ, ◌≡◌, ◌↔◌, refl, Text, Text-discrete, codes, List, [], ◌∷◌}
use premise_protocol.Events.{EventKind, snapshot, delta}
use premise_protocol.Bursts.{
  StreamEvent, StreamCapability, ordered_events, authoritative_snapshot, delta_events,
  PreservedReason, coalesced, preserved, has_capability, contiguous, latest_snapshot, plan_at,
  plan_from, plan_stream_burst,
}
use premise_protocol.Bursts.Coalesced.{Drops}
use premise_protocol.Bursts.Planned.{plan-Drops}

abbrev event : ℕ → EventKind → StreamEvent ℕ
event n k = record {
  stream_id = codes "s";
  tenant_id = codes "t";
  sequence = n;
  kind = k;
  body = n;
}

abbrev burst : List (StreamEvent ℕ)
burst = event 4 delta ∷ event 5 snapshot ∷ event 6 delta ∷ []

abbrev full : List StreamCapability
full = ordered_events ∷ delta_events ∷ authoritative_snapshot ∷ []

plan-drops_one :
    plan_stream_burst full burst
    ≡ coalesced (codes "s") (codes "t") (event 5 snapshot ∷ event 6 delta ∷ []) (4 ∷ [])
unfolding plan_stream_burst plan_from Text-discrete contiguous has_capability latest_snapshot
    plan_at
plan-drops_one = refl

plan-Drops_example :
    ((stream tenant : Text) (kept : List (StreamEvent ℕ)) (skipped : List ℕ)
      → (plan_stream_burst full burst ≡ coalesced stream tenant kept skipped)
        ↔ Drops full burst stream tenant kept skipped)
    × ((r : PreservedReason) (kept : List (StreamEvent ℕ))
        → plan_stream_burst full burst ≡ preserved r kept
        → kept ≡ burst)
plan-Drops_example = plan-Drops full burst
