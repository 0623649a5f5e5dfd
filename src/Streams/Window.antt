-- ===== src/Streams/Window.antt =====
-- What a stream has seen: every sequence from its snapshot on, up to the next.
use premise_protocol.Base.{
  ℕ, ◌≤◌, ◌<◌, ◌≡◌, ◌≢◌, ◌↔◌, ◌⊎◌, refl, sym, subst, arith, Bool, true, Text, Text-discrete, none,
  Dict, put, put_self, put_ne, empty,
}
use premise_protocol.Streams.{StreamState, waiting_at, see, state_of}

-- The stream has seen just the sequences from a start up to the next one, and it has a snapshot once
-- it has seen one.
pub record Window (start : ℕ) (s : StreamState) : Type 0 where
  pub starts : start ≤ s.next_sequence
  pub sees : (n : ℕ) → start ≤ n → n < s.next_sequence → s.seen n ≢ none
  pub sees_only : (n : ℕ) → (n < start) ⊎ (s.next_sequence ≤ n) → s.seen n ≡ none
  pub begun : (s.has_snapshot ≡ true) ↔ (start < s.next_sequence)

abbrev pub Windowed : StreamState → Type 0
Windowed s = (start : ℕ) × Window start s

pub waiting-Window : (n : ℕ) → Window n (waiting_at n)
waiting-Window n = record {
  starts = omega arith;
  sees = λ m a b. absurd (omega arith);
  sees_only = λ m h. refl;
  begun = (λ h. cc, λ h. absurd (omega arith));
}

pub see-Window :
    (a n : ℕ) (s : StreamState) (f : Text) (snap : Bool)
    → Window a s
    → n ≡ s.next_sequence
    → (s.has_snapshot ≡ true) ⊎ (snap ≡ true)
    → Window a (see s n f snap)
unfolding see
see-Window a n s f snap w e starts = record {
  starts = omega (arith, w.starts, e);
  sees = λ m lo hi. ground (arith, w.sees m lo, e, hi);
  sees_only = λ m h. ground (arith, w.sees_only m, w.starts, e, h);
  begun = (λ h. omega (arith, w.starts, e), λ h. ground (arith, starts));
}

pub see-snapshot :
    (n : ℕ) (s : StreamState) (f : Text) (snap : Bool)
    → (s.has_snapshot ≡ true) ⊎ (snap ≡ true)
    → (see s n f snap).has_snapshot ≡ true
unfolding see
see-snapshot n s f snap h = ground (arith, h)

abbrev pub AllWindowed : Dict StreamState → Type 0
AllWindowed m = (k : Text) → Windowed (state_of m k)

pub state_of-put : (m : Dict StreamState) (k : Text) (s : StreamState) → state_of (put m k s) k ≡ s
unfolding state_of
state_of-put m k s = rw (state_of, put_self m k s) refl

pub state_of-put_ne :
    (m : Dict StreamState) (k j : Text) (s : StreamState)
    → k ≢ j
    → state_of (put m k s) j ≡ state_of m j
unfolding state_of
state_of-put_ne m k j s ne = rw (state_of, put_ne m k j s ne) refl

pub AllWindowed-empty : AllWindowed empty
unfolding state_of
AllWindowed-empty k = (0, waiting-Window 0)

pub AllWindowed-put :
    (m : Dict StreamState) (k : Text) (s : StreamState)
    → Windowed s
    → AllWindowed m
    → AllWindowed (put m k s)
AllWindowed-put m k s w all j = elim (Text-discrete k j) [
  | yes e ↦
      subst (λ (i : Text). Windowed (state_of (put m k s) i)) e
        (subst Windowed (sym (state_of-put m k s)) w)
  | no ne ↦ subst Windowed (sym (state_of-put_ne m k j s ne)) (all j)
]
