-- ===== src/Policy/Gate/Tests.antt =====
-- A policy whose Proposers are among all its DIDs, and one whose Proposers are not.
use mpas.Prelude.{ℕ, ◌≡◌, ◌↔◌, refl, some, none, List, [], ◌∷◌}
use mpas.Prelude.Eq.{string_eq}
use mpas.Prelude.Assoc.{lookup}
use mpas.Mpas.{Did}
use mpas.Policy.Evaluation.{SignerGroups, proposer_only}
use mpas.Policy.{PolicyConfig, allowed, check_proposer_authorization}
use mpas.Policy.Gate.{IsProposer, allowed_iff}

abbrev two_dids : List Did
two_dids = "did:x:alice" ∷ "did:x:bob" ∷ []

abbrev groups_of : List Did → SignerGroups
groups_of proposers = ("all", two_dids) ∷ ("proposers", proposers) ∷ []

abbrev policy_of : List Did → PolicyConfig ℕ
policy_of proposers = record {
  default_requirement = proposer_only;
  policies = none;
  signer_groups = some (groups_of proposers);
}

abbrev bob_proposes : List Did
bob_proposes = "did:x:bob" ∷ []

allowed_iff_example :
    (check_proposer_authorization "did:x:bob" (policy_of bob_proposes) ≡ allowed)
    ↔ IsProposer "did:x:bob" (some (groups_of bob_proposes))
allowed_iff_example = allowed_iff "did:x:bob" (policy_of bob_proposes)

-- A Proposer that is not in the group `all` passes as well.
stranger_allowed :
    check_proposer_authorization "did:x:carol" (policy_of ("did:x:carol" ∷ [])) ≡ allowed
unfolding check_proposer_authorization lookup
stranger_allowed = refl
