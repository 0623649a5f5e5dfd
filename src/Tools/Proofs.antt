-- ===== src/Tools/Proofs.antt =====
-- What a proof of a revalidation says.
use premise_protocol.Base.{◌≡◌, refl, sym, subst, arith, true, Option, none, some}
use premise_protocol.Tools.{
  Resource, VersionReference, VersionField, version, is_fresh, Reply, replies, no_object, fails,
  times_out, RevalidationReply, valid_version, same_resource,
}
use premise_protocol.Tools.Answers.{
  StoredCheck, ProofResource, proves, accept_revalidation, revalidate_stored,
}

pub same_resource-eq : (a b : Resource) → same_resource a b ≡ true → a ≡ b
unfolding same_resource
same_resource-eq a b h = ground (arith, h)

valid_version-eq :
    (f : VersionField) (v : VersionReference) → valid_version f ≡ some v → f ≡ version v
unfolding valid_version
valid_version-eq f v h = ground (arith, h)

-- The answer says that the resource is fresh at the version.
abbrev pub SaysFresh : RevalidationReply → Resource → VersionReference → Type 0
SaysFresh r resource v =
    (r.resource ≡ resource) × (r.outcome ≡ some is_fresh) × (r.observed_version ≡ version v)

accepted :
    (resource : Resource) (r : RevalidationReply) (p : ProofResource)
    → accept_revalidation resource (replies r) ≡ proves p
    → (p.resource ≡ resource) × SaysFresh r resource p.version
unfolding accept_revalidation
accepted resource r p h =
    let same : same_resource r.resource resource ≡ true = ground (arith, h) in
    let given : valid_version r.observed_version ≡ some p.version = ground (arith, h) in
    (
      ground (arith, h),
      (
        same_resource-eq r.resource resource same,
        ground (arith, h),
        valid_version-eq r.observed_version p.version given,
      ),
    )

stored-accepts :
    (o : Option StoredCheck) (resource : Resource) (reply : Reply RevalidationReply)
    (p : ProofResource)
    → revalidate_stored o resource reply ≡ proves p
    → accept_revalidation resource reply ≡ proves p
unfolding revalidate_stored
stored-accepts none resource reply p h = cc
stored-accepts (some c) resource reply p h = ground (arith, h)

-- A proof comes from an answer that says fresh.
pub proof_shown :
    (o : Option StoredCheck) (resource : Resource) (reply : Reply RevalidationReply)
    (p : ProofResource)
    → revalidate_stored o resource reply ≡ proves p
    → (r : RevalidationReply) × (reply ≡ replies r) × SaysFresh r p.resource p.version
unfolding accept_revalidation
proof_shown o resource reply p h = of_reply reply (stored-accepts o resource reply p h)
  where
    of_reply :
        (reply : Reply RevalidationReply)
        → accept_revalidation resource reply ≡ proves p
        → (r : RevalidationReply) × (reply ≡ replies r) × SaysFresh r p.resource p.version
    of_reply (replies r) h =
        let (same, says) = accepted resource r p h in
        (r, refl, subst (λ x. SaysFresh r x p.version) (sym same) says)
    of_reply no_object h = cc
    of_reply fails h = cc
    of_reply times_out h = cc
