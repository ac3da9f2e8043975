-- ===== src/Policy/Gate.antt =====
-- Who may submit at all (`checkProposerAuthorization`).
mod Tests
use mpas.Prelude.{◌≡◌, ◌↔◌, ◌⊎◌, true, Option, none, some, List, arith, inl, inr, Option-cases}
use mpas.Prelude.Eq.{includes, string_eq}
use mpas.Prelude.Assoc.{lookup}
use mpas.Mpas.{Did}
use mpas.Policy.Evaluation.{SignerGroups}
use mpas.Policy.{PolicyConfig, allowed, check_proposer_authorization}

-- The allowed Proposers: the group `proposers`, or, if there is none, the group `all`.
pub record IsProposer (proposer_did : Did) (signer_groups : Option SignerGroups) : Type 0 where
  pub groups : SignerGroups
  pub dids : List Did
  pub present : signer_groups ≡ some groups
  pub group :
      (lookup "proposers" groups ≡ some dids)
      ⊎ ((lookup "proposers" groups ≡ none) × (lookup "all" groups ≡ some dids))
  pub listed : includes proposer_did dids ≡ true

module _ {N : Type 0} (proposer_did : Did) (policy : PolicyConfig N) where
  gate_sound :
      check_proposer_authorization proposer_did policy ≡ allowed
      → IsProposer proposer_did policy.signer_groups
  unfolding check_proposer_authorization
  gate_sound h = elim (Option-cases policy.signer_groups) [
    | inl absent ↦ absurd (ground (arith, absent))
    | inr (groups, present) ↦ elim (Option-cases (lookup "proposers" groups)) [
      | inr (dids, e) ↦ record {
        groups = groups;
        dids = dids;
        present = present;
        group = inl e;
        listed = ground (arith, present, e);
      }
      | inl e ↦ elim (Option-cases (lookup "all" groups)) [
        | inl f ↦ absurd (ground (arith, present, e, f))
        | inr (dids, f) ↦ record {
          groups = groups;
          dids = dids;
          present = present;
          group = inr (e, f);
          listed = ground (arith, present, e, f);
        }
      ]
    ]
  ]

  gate_complete :
      IsProposer proposer_did policy.signer_groups
      → check_proposer_authorization proposer_did policy ≡ allowed
  unfolding check_proposer_authorization
  gate_complete p = ground arith

-- A Proposer passes the gate exactly when it is listed in the group `proposers`, or, if the policy
-- has no such group, in the group `all`.
pub allowed_iff :
    {N : Type 0} (proposer_did : Did) (policy : PolicyConfig N)
    → (check_proposer_authorization proposer_did policy ≡ allowed)
      ↔ IsProposer proposer_did policy.signer_groups
allowed_iff proposer_did policy =
    (gate_sound proposer_did policy, gate_complete proposer_did policy)
