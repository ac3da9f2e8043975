-- ===== src/Policy/Matching.antt =====
-- When a policy is met, described without the control flow of `evaluatePolicy`, and the entries that
-- match.
use mpas.Prelude.{
  ◌≡◌, ◌↔◌, refl, ap, Bool, true, false, List, [], ◌∷◌, filter, any, All, All-map, All-of_filter,
  filter-All, is_empty, arith,
}
use mpas.Prelude.Result.{Result, ok, err, bind-eq-ok}
use mpas.Mpas.Numbers.{Numbers}
use mpas.Mpas.Package.{ActionPackage}
use mpas.Policy.Evaluation.{Requirement, Requirements, nil, cons, VerifiedApproval}
use mpas.Policy.Evaluation.Satisfaction.{Satisfies, by_all, SatisfiesAll, none_left, both}
use mpas.Policy.Conditions.{Fault, matches_conditions}
use mpas.Policy.{
  PolicyEntry, requires, rejects, PolicyConfig, action_name, entries_for, entry_conditions,
  is_reject, matched_requirements, combine, matching_entries,
}

module _ (ns : Numbers) (package' : ActionPackage ns.Num) where
  abbrev pub entry_result : PolicyEntry ns.Num → Result Fault Bool
  entry_result entry =
      matches_conditions ns (entry_conditions entry) package'.execution_payload
        package'.action_envelope

  -- All conditions of the entry hold.
  abbrev pub Matches : PolicyEntry ns.Num → Type 0
  Matches entry = entry_result entry ≡ ok true

  -- Evaluating the entry's conditions throws nothing.
  abbrev pub IsEvaluable : PolicyEntry ns.Num → Type 0
  IsEvaluable entry = (b : Bool) × (entry_result entry ≡ ok b)

  module _ (approvals : List VerifiedApproval) (policy : PolicyConfig ns.Num) where
    abbrev pub Met : Requirement → Type 0
    Met = Satisfies approvals policy.signer_groups package'.action_envelope.proposer_did

    -- What a matching entry asks for; an entry that rejects can not be met.
    abbrev pub EntryMet : PolicyEntry ns.Num → Type 0
    EntryMet (requires _ r) = Met r
    EntryMet (rejects _) = ⊥

    abbrev pub selected : List (PolicyEntry ns.Num)
    selected = entries_for (action_name package'.execution_payload) policy

    -- Every matching entry is met; where none matches, the default requirement is.
    pub record PolicyMet : Type 0 where
      pub evaluable : All IsEvaluable selected
      pub entries : All (λ entry. Matches entry → EntryMet entry) selected
      pub default : All (λ entry. ¬ (Matches entry)) selected → Met policy.default_requirement

empty-All {ℓ} : {A : Type ℓ} (xs : List A) → is_empty xs ≡ true → All (λ _. ⊥) xs
empty-All [] h = tt
empty-All (x ∷ xs) h = absurd (ground arith)

All-empty {ℓ} : {A : Type ℓ} (xs : List A) → All (λ _. ⊥) xs → is_empty xs ≡ true
All-empty [] h = refl
All-empty (x ∷ xs) h = absurd h.0

module _ (ns : Numbers) (package' : ActionPackage ns.Num) where
  abbrev pub holds : PolicyEntry ns.Num → Bool
  holds entry = elim (entry_result ns package' entry) [ ok b ↦ b | err e ↦ false ]

  pub matching_found :
      (entries matched : List (PolicyEntry ns.Num))
      → matching_entries ns entries package' ≡ ok matched
      → All (IsEvaluable ns package') entries × (matched ≡ filter holds entries)
  unfolding matching_entries
  matching_found [] matched h = (tt, cc)
  matching_found (e ∷ entries) matched h =
      let (b, here, rest) = bind-eq-ok (entry_result ns package' e) _ h in
      let (more, there, final) = bind-eq-ok (matching_entries ns entries package') _ rest in
      let (evaluable, same) = matching_found entries more there in
      (((b, here), evaluable), ground (arith, here, same))

  pub matching_of_evaluable :
      (entries : List (PolicyEntry ns.Num))
      → All (IsEvaluable ns package') entries
      → matching_entries ns entries package' ≡ ok (filter holds entries)
  unfolding matching_entries
  matching_of_evaluable [] h = refl
  matching_of_evaluable (e ∷ entries) ((b, here), rest) =
      ground (arith, here, matching_of_evaluable entries rest)

  holds_of_result :
      (r : Result Fault Bool) → (elim r [ ok b ↦ b | err e ↦ false ] ≡ true) ↔ (r ≡ ok true)
  holds_of_result (ok b) = (λ h. ap ok h, λ h. ground arith)
  holds_of_result (err e) = (λ h. cc, λ h. cc)

  holds_iff : (entry : PolicyEntry ns.Num) → (holds entry ≡ true) ↔ Matches ns package' entry
  holds_iff entry = holds_of_result (entry_result ns package' entry)

  module _ (approvals : List VerifiedApproval) (policy : PolicyConfig ns.Num) where
    pub All-met :
        (matched : List (PolicyEntry ns.Num))
        → any is_reject matched ≡ false
        → SatisfiesAll approvals policy.signer_groups package'.action_envelope.proposer_did
            (matched_requirements matched)
        → All (EntryMet ns package' approvals policy) matched
    unfolding matched_requirements
    All-met [] n s = tt
    All-met (requires m r ∷ rest) n (both s t) = (s, All-met rest n t)
    All-met (rejects m ∷ rest) n s = absurd (ground arith)

    pub met-All :
        (matched : List (PolicyEntry ns.Num))
        → All (EntryMet ns package' approvals policy) matched
        → (any is_reject matched ≡ false)
          × SatisfiesAll approvals policy.signer_groups package'.action_envelope.proposer_did
              (matched_requirements matched)
    unfolding matched_requirements
    met-All [] h = (refl, none_left)
    met-All (requires m r ∷ rest) (s, h) = let (n, t) = met-All rest h in (n, both s t)
    met-All (rejects m ∷ rest) (s, h) = absurd s

    pub entries_met :
        (entries : List (PolicyEntry ns.Num))
        → All (EntryMet ns package' approvals policy) (filter holds entries)
        → All
            (λ entry. Matches ns package' entry → EntryMet ns package' approvals policy entry)
            entries
    entries_met entries h =
        All-map (λ entry f m. f ((holds_iff entry).1 m)) entries (All-of_filter _ holds entries h)

    pub met_entries :
        (entries : List (PolicyEntry ns.Num))
        → All
            (λ entry. Matches ns package' entry → EntryMet ns package' approvals policy entry)
            entries
        → All (EntryMet ns package' approvals policy) (filter holds entries)
    met_entries entries h =
        filter-All _ holds entries (All-map (λ entry f m. f ((holds_iff entry).0 m)) entries h)

    pub none-Matches :
        (entries : List (PolicyEntry ns.Num))
        → is_empty (filter holds entries) ≡ true
        → All (λ entry. ¬ (Matches ns package' entry)) entries
    none-Matches entries h =
        All-map (λ entry f m. f ((holds_iff entry).1 m)) entries
          (All-of_filter (λ _. ⊥) holds entries (empty-All (filter holds entries) h))

    pub Matches-none :
        (entries : List (PolicyEntry ns.Num))
        → All (λ entry. ¬ (Matches ns package' entry)) entries
        → is_empty (filter holds entries) ≡ true
    Matches-none entries h = All-empty (filter holds entries) (
        filter-All (λ _. ⊥) holds entries
          (All-map (λ entry f m. f ((holds_iff entry).0 m)) entries h))

    pub combine-Met :
        (rs : Requirements)
        → Met ns package' approvals policy (combine rs)
        → SatisfiesAll approvals policy.signer_groups package'.action_envelope.proposer_did rs
    unfolding combine
    combine-Met nil (by_all s) = s
    combine-Met (cons r nil) s = both s none_left
    combine-Met (cons r (cons q rs)) (by_all s) = s

    pub Met-combine :
        (rs : Requirements)
        → SatisfiesAll approvals policy.signer_groups package'.action_envelope.proposer_did rs
        → Met ns package' approvals policy (combine rs)
    unfolding combine
    Met-combine nil s = by_all s
    Met-combine (cons r nil) (both s t) = s
    Met-combine (cons r (cons q rs)) s = by_all s
