-- ===== src/Policy/Conditions/Paths.antt =====
-- When evaluating conditions can throw a `TypeError`: only for a condition without a path.
use mpas.Prelude.{
  ◌≡◌, ◌≢◌, ◌↔◌, refl, ap, Bool, true, false, ◌++◌, if◌then◌else◌, Option, none, List, [], ◌∷◌, All,
  arith, is_some, Option-cases, inl, inr,
}
use mpas.Prelude.Result.{Result, ok, err, ◌>>=◌}
use mpas.Mpas.Json.{Json}
use mpas.Mpas.Numbers.{Numbers}
use mpas.Mpas.Package.{ActionEnvelope}
use mpas.Policy.Conditions.{
  PolicyCondition, Fault, unparseable_numeric_value, ConditionOp, gt, gte, lt, lte, type_error,
  to_number, compare_numbers, operator_holds, condition_matches, matches_conditions,
}

abbrev pub HasPath : {N : Type 0} → PolicyCondition N → Type 0
HasPath c = is_some c.path ≡ true

module _ (ns : Numbers) where
  to_number_fault : (v : Option (Json ns.Num)) → to_number ns v ≢ err type_error
  unfolding to_number
  to_number_fault v = ground arith

  compare_numbers_fault :
      (test : ns.Num → ns.Num → Bool) (a b : Option (Json ns.Num))
      → compare_numbers ns test a b ≢ err type_error
  unfolding compare_numbers
  compare_numbers_fault test a b = ground (arith, to_number_fault a, to_number_fault b)

  operator_fault :
      (op : ConditionOp) (a v : Option (Json ns.Num)) → operator_holds ns op a v ≢ err type_error
  unfolding operator_holds
  operator_fault gt a v = compare_numbers_fault _ a v
  operator_fault gte a v = compare_numbers_fault _ a v
  operator_fault lt a v = compare_numbers_fault _ a v
  operator_fault lte a v = compare_numbers_fault _ a v
  operator_fault _ a v = ground arith

  condition_fault :
      (c : PolicyCondition ns.Num) (payload : Json ns.Num) (envelope : ActionEnvelope ns.Num)
      → HasPath c
      → condition_matches ns c payload envelope ≢ err type_error
  unfolding condition_matches
  condition_fault c payload envelope h = elim (Option-cases c.path) [
    | inl e ↦ absurd (ground (arith, e))
    | inr (path, e) ↦ rw e (operator_fault c.op _ c.value)
  ]

  pub conditions_fault :
      (cs : List (PolicyCondition ns.Num)) (payload : Json ns.Num)
      (envelope : ActionEnvelope ns.Num)
      → All HasPath cs
      → matches_conditions ns cs payload envelope ≢ err type_error
  unfolding matches_conditions
  conditions_fault [] payload envelope h = cc
  conditions_fault (c ∷ cs) payload envelope (h, hs) =
      ground (arith, condition_fault c payload envelope h, conditions_fault cs payload envelope hs)

  pathless_fault :
      (c : PolicyCondition ns.Num) (cs : List (PolicyCondition ns.Num)) (payload : Json ns.Num)
      (envelope : ActionEnvelope ns.Num)
      → c.path ≡ none
      → matches_conditions ns (c ∷ cs) payload envelope ≡ err type_error
  unfolding matches_conditions condition_matches
  pathless_fault c cs payload envelope e = ground arith

  module _ (payload : Json ns.Num) (envelope : ActionEnvelope ns.Num) where
    -- A condition without a path stands behind conditions that all hold.
    pub record StopsAt (cs : List (PolicyCondition ns.Num)) : Type 0 where
      pub before : List (PolicyCondition ns.Num)
      pub condition : PolicyCondition ns.Num
      pub after : List (PolicyCondition ns.Num)
      pub split : cs ≡ before ++ condition ∷ after
      pub hold : All (λ c. condition_matches ns c payload envelope ≡ ok true) before
      pub pathless : condition.path ≡ none

    passes_first :
        (r rest : Result Fault Bool)
        → r ≢ err type_error
        → (r >>= λ holds. if holds then rest else ok false) ≡ err type_error
        → (r ≡ ok true) × (rest ≡ err type_error)
    passes_first (ok true) rest n h = (refl, h)
    passes_first (ok false) rest n h = cc
    passes_first (err unparseable_numeric_value) rest n h = cc
    passes_first (err type_error) rest n h = absurd (n refl)

    found_pathless :
        (cs : List (PolicyCondition ns.Num))
        → matches_conditions ns cs payload envelope ≡ err type_error
        → StopsAt cs
    unfolding matches_conditions
    found_pathless [] h = cc
    found_pathless (c ∷ cs) h = elim (Option-cases c.path) [
      | inl e ↦ record {
        before = [];
        condition = c;
        after = cs;
        split = refl;
        hold = tt;
        pathless = e;
      }
      | inr (path, e) ↦
          let (holds, later) =
            passes_first (condition_matches ns c payload envelope) _
              (condition_fault c payload envelope (rw e refl)) h in
          let s = found_pathless cs later in
          record {
            before = c ∷ s.before;
            condition = s.condition;
            after = s.after;
            split = ap (λ (l : List (PolicyCondition ns.Num)). c ∷ l) s.split;
            hold = (holds, s.hold);
            pathless = s.pathless;
          }
    ]

    stops :
        (before : List (PolicyCondition ns.Num)) (c : PolicyCondition ns.Num)
        (after : List (PolicyCondition ns.Num))
        → All (λ b. condition_matches ns b payload envelope ≡ ok true) before
        → c.path ≡ none
        → matches_conditions ns (before ++ c ∷ after) payload envelope ≡ err type_error
    unfolding matches_conditions
    stops [] c after h e = pathless_fault c after payload envelope e
    stops (b ∷ before) c after (h, hs) e = rw h (stops before c after hs e)

    pub conditions-StopsAt_iff :
        (cs : List (PolicyCondition ns.Num))
        → (matches_conditions ns cs payload envelope ≡ err type_error) ↔ StopsAt cs
    conditions-StopsAt_iff cs =
        (found_pathless cs, λ s. rw s.split (stops s.before s.condition s.after s.hold s.pathless))
