-- ===== src/Tools/Tests.antt =====
-- The theorems on guarded tools at a concrete history.
use premise_protocol.Base.{
  ℕ, ◌≡◌, refl, Text, Text-discrete, codes, trim, Option, none, some, List, [], ◌∷◌, length,
}
use premise_protocol.Absence.{is_required}
use premise_protocol.Base.{trim_start, is_space, ℕ_discrete}
use premise_protocol.Entries.{lookup, remove}
use premise_protocol.Entries.Distinct.{Distinct}
use premise_protocol.Tools.{
  Resource, VersionReference, version, fresh, is_fresh, applied, Reply, replies, ActionReply,
  valid_version, same_resource, is_resource, write, claim, complete,
}
use premise_protocol.Tools.Answers.{Handle, revalidate_stored, accept_check, accept_revalidation}
use premise_protocol.Tools.Guarded.{
  guarded_tool, key_of, act, revalidate, check, join_or_launch, launch, perform,
}
use premise_protocol.Tools.Run.{
  Event, checks, revalidates, acts, starts, finishes, forgets, of_flight, rewrites, rewrite, start,
  finish, forget, step, run,
}
use premise_protocol.Tools.Once.{calls-Distinct}
use premise_protocol.Tools.Proven.{Backed, AllCalls}
use premise_protocol.Tools.Calls.{calls-Revalidated}

abbrev file : Resource
file = record { tenant_id = codes "t"; resource = codes "r" }

abbrev v1 : VersionReference
v1 = record { scheme = codes "s"; token = codes "1" }

abbrev v2 : VersionReference
v2 = record { scheme = codes "s"; token = codes "2" }

-- The object with an identity, as the tool returned it.
abbrev object : ℕ → Handle
object i = record { identity = i; resource = file; version = version v1 }

-- The action is its own canonical text.
abbrev canonical : Text → Option Text
canonical a = some a

abbrev key : Text
key = key_of file (codes "k")

abbrev done : Reply (ActionReply ℕ)
done = replies (record {
  resource = file;
  outcome = some applied;
  observed_version = version v1;
  result = some 7;
  reason = none;
})

-- A checked, revalidated action, asked for twice. Its version object changes before the call.
abbrev history : List (Event Text ℕ)
history =
    checks file (
      replies (record { resource = file; state = some fresh; version = version v1; reason = none }))
    ∷ revalidates (object 0) (
        replies (record {
          resource = file;
          outcome = some is_fresh;
          observed_version = version v1;
          reason = none;
        }))
    ∷ acts (object 1) (codes "go") (codes "k")
    ∷ rewrites (of_flight key) v2
    ∷ starts key
    ∷ acts (object 1) (codes "go") (codes "k")
    ∷ finishes key done
    ∷ forgets key
    ∷ acts (object 1) (codes "go") (codes "k")
    ∷ starts key
    ∷ []

history-once : length (run canonical history (guarded_tool 2)).calls ≡ 1
unfolding run step start finish forget lookup remove act revalidate revalidate_stored check
    is_resource is_required trim trim_start is_space accept_check same_resource Text-discrete
    ℕ_discrete valid_version accept_revalidation join_or_launch launch claim write complete perform
    rewrite
history-once = refl

calls-Distinct_example : Distinct (run canonical history (guarded_tool 2)).calls
calls-Distinct_example = calls-Distinct canonical history 2

calls-Revalidated_example : AllCalls (Backed history) (run canonical history (guarded_tool 2))
calls-Revalidated_example = calls-Revalidated canonical history 2

call_carries :
    (run canonical history (guarded_tool {A = Text} {R = ℕ} 2)).calls
    ≡ (
      key,
      record {
        resource = file;
        expected_version = v2;
        idempotency_key = codes "k";
        action = codes "go";
      },
    )
      ∷ []
unfolding run step start finish forget lookup remove act revalidate revalidate_stored check
    is_resource is_required trim trim_start is_space accept_check same_resource Text-discrete
    ℕ_discrete valid_version accept_revalidation join_or_launch launch claim write complete perform
    rewrite
call_carries = refl
