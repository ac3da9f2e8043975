-- ===== src/Coordination/Relay/History.antt =====
-- Runs of relayed actions, responses and refused calls, in any order.
use mpas.Prelude.{
  ℕ, suc, ◌+◌, ◌≡◌, refl, ap, sym, ◌∙◌, Bool, Option, none, some, List, [], ◌∷◌, ◌++◌, length,
  get_elem?, get_elem?-append, get_elem?-set_or, arith, some_inj, Option-cases, inl, inr,
}
use mpas.Prelude.Eq.{string_eq}
use mpas.Prelude.Assoc.{lookup}
use mpas.Prelude.Result.{Result, ok, err, ◌>>=◌, ◌>>◌, given, bind-ok_iff, or_error-ok_iff, ok_inj}
use mpas.Mpas.{Did, Timestamp}
use mpas.Mpas.Package.{ActionPackage}
use mpas.Mpas.Response.{ActionResponse}
use mpas.Coordination.Env.{Env}
use mpas.Coordination.Errors.{ServiceError, action_not_found}
use mpas.Coordination.Validation.{envelope_hash}
use mpas.Coordination.Relay.Records.{
  DeliveryEnvelope, Payload, request, response, StoredRelayedAction, StoredDelivery, Relay,
}
use mpas.Coordination.Relay.{
  relayed_at, relayed_by_hash, as_payload, deliveries_to, store_envelope, record_routing_audit,
  store_relayed, begun, delivered, validate_relayed_action, begin_relayed_action, check_response,
  response_delivery_target, resolved, submit_response_delivery,
}
use mpas.Coordination.Relay.Pages.{Numbered, Numbered-lower}

module _ (env : Env) where
  pub data Op : Type 0 where
    begin : DeliveryEnvelope env (ActionPackage env.Num) → Did → Op
    answer : DeliveryEnvelope env ActionResponse → List Did → Op

  abbrev relay_of : Relay env → Result ServiceError (Relay env × Bool × ℕ) → Relay env
  relay_of r (err e) = r
  relay_of r (ok begun') = begun'.0

  abbrev answered_of : Relay env → Result ServiceError (Relay env) → Relay env
  answered_of r (err e) = r
  answered_of r (ok r') = r'

  -- A call that throws changes nothing.
  pub step : Relay env → Op → ℕ → Timestamp → Relay env
  step r (begin e verifier) now at = relay_of r (begin_relayed_action env r e verifier at)
  step r (answer e administrators) now at =
      answered_of r (submit_response_delivery env r e administrators now at)

  pub run : Relay env → List (Op × ℕ × Timestamp) → Relay env
  unfolding step
  run r [] = r
  run r ((op, now, at) ∷ ops) = run (step r op now at) ops

  abbrev pub empty_relay : Relay env
  empty_relay = record {
    actions = [];
    relayed_actions_by_id = [];
    relayed_actions_by_envelope_hash = [];
    deliveries = [];
    routing_audit = [];
    next_delivery_sequence = 1;
  }

  abbrev pub IsNumbered : Relay env → Type 0
  IsNumbered r = Numbered env 1 r.next_delivery_sequence r.deliveries

  -- The action stays, and so does its first response.
  pub record Keeps (r r' : Relay env) : Type 0 where
    pub kept :
        (i : ℕ) (s : StoredRelayedAction env)
        → get_elem? r.actions i ≡ some s
        → (s' : StoredRelayedAction env) × (get_elem? r'.actions i ≡ some s')
          × (s'.action_ref ≡ s.action_ref)
          × (s'.verifier_did ≡ s.verifier_did)
          × ((a : ActionResponse) → s.response ≡ some a → s'.response ≡ some a)

  Numbered-append :
      (lo mid hi : ℕ) (xs ys : List (StoredDelivery env))
      → Numbered env lo mid xs
      → Numbered env mid hi ys
      → Numbered env lo hi (xs ++ ys)
  unfolding Numbered
  Numbered-append lo mid hi [] ys h k = Numbered-lower env lo mid hi ys h k
  Numbered-append lo mid hi (d ∷ xs) ys (l, h) k =
      (l, Numbered-append (d.sequence + 1) mid hi xs ys h k)

  deliveries_to-Numbered :
      (e : DeliveryEnvelope env (Payload env)) (n : ℕ) (dids : List Did)
      → Numbered env n (n + length dids) (deliveries_to env e n dids)
  unfolding Numbered deliveries_to
  deliveries_to-Numbered e n [] = omega arith
  deliveries_to-Numbered e n (did ∷ dids) =
      let same : n + 1 + length dids ≡ n + suc (length dids) = omega arith in
      (omega arith, rw (← same) (deliveries_to-Numbered e (n + 1) dids))

  store_envelope-IsNumbered :
      (r : Relay env) (e : DeliveryEnvelope env (Payload env))
      → IsNumbered r
      → IsNumbered (store_envelope env r e)
  unfolding store_envelope
  store_envelope-IsNumbered r e h =
      Numbered-append 1 r.next_delivery_sequence (r.next_delivery_sequence + length e.recipients)
        r.deliveries _ h (deliveries_to-Numbered e r.next_delivery_sequence e.recipients)

  Keeps-refl : (r : Relay env) → Keeps r r
  Keeps-refl r = record { kept = λ i s h. (s, h, refl, refl, λ a k. k) }

  Keeps-trans : (a b c : Relay env) → Keeps a b → Keeps b c → Keeps a c
  Keeps-trans a b c h k = record {
    kept = λ i s e. given (h.kept i s e) (λ (s1, e1, ref1, did1, f1).
        given (k.kept i s1 e1)
          (λ (s2, e2, ref2, did2, f2). (s2, e2, ref2 ∙ ref1, did2 ∙ did1, λ x y. f2 x (f1 x y))));
  }

  -- What an operation establishes.
  abbrev Good : Relay env → Relay env → Type 0
  Good r r' = (IsNumbered r → IsNumbered r') × Keeps r r'

  begin_found :
      (r : Relay env) (e : DeliveryEnvelope env (ActionPackage env.Num)) (verifier : Did)
      (at : Timestamp) (found : Option (ℕ × StoredRelayedAction env))
      → Good r ((begun env r e verifier at found).0)
  unfolding begun record_routing_audit store_relayed store_envelope
  begin_found r e verifier at (some (i, s)) = (λ h. h, Keeps-refl r)
  begin_found r e verifier at none =
      let sent = as_payload env (λ p. request p) e in
      (
        store_envelope-IsNumbered r sent,
        record { kept = λ i s h. (s, get_elem?-append r.actions _ i s h, refl, refl, λ a k. k) },
      )

  checked-Good :
      (r : Relay env) (check : Result ServiceError (Unit {0})) (made : Relay env × Bool × ℕ)
      → Good r (made.0)
      → Good r (relay_of r (check >> ok made))
  checked-Good r (ok u) made h = h
  checked-Good r (err e) made h = (λ k. k, Keeps-refl r)

  no_pair : {p : ℕ × StoredRelayedAction env} → ¬ (none ≡ some p)
  no_pair h = cc

  begin-Good :
      (r : Relay env) (e : DeliveryEnvelope env (ActionPackage env.Num)) (verifier : Did)
      (at : Timestamp)
      → Good r (relay_of r (begin_relayed_action env r e verifier at))
  unfolding begin_relayed_action
  begin-Good r e verifier at =
      checked-Good r (validate_relayed_action env r e verifier) _
        (begin_found r e verifier at (relayed_by_hash env r (envelope_hash env e.payload).value))

  resolved_lem :
      (s : StoredRelayedAction env) (reply : ActionResponse)
      → ((resolved env s reply).action_ref ≡ s.action_ref)
        × ((resolved env s reply).verifier_did ≡ s.verifier_did)
        × ((a : ActionResponse) → s.response ≡ some a → (resolved env s reply).response ≡ some a)
  resolved_lem s reply = elim (Option-cases s.response) [
    | inl e ↦ rw e (refl, refl, λ a h. cc)
    | inr (b, e) ↦ rw e (refl, refl, λ a h. h)
  ]

  delivered-Good :
      (r : Relay env) (e : DeliveryEnvelope env ActionResponse) (i : ℕ)
      (s : StoredRelayedAction env) (at : Timestamp)
      → get_elem? r.actions i ≡ some s
      → Good r (delivered env r e (i, s) at)
  unfolding delivered record_routing_audit store_envelope
  delivered-Good r e i s at found =
      let sent = as_payload env (λ p. response p) e in
      (
        store_envelope-IsNumbered r sent,
        record {
          kept = λ j c h. elim (get_elem?-set_or r.actions i j (resolved env s e.payload) c h) [
            | inl (same, now_there) ↦
                let same_action : s ≡ c =
                  some_inj (sym found ∙ ap (λ (k : ℕ). get_elem? r.actions k) same ∙ h) in
                let (ref, did, first) = resolved_lem s e.payload in
                (
                  resolved env s e.payload,
                  now_there,
                  rw (← same_action) ref,
                  rw (← same_action) did,
                  rw (← same_action) first,
                )
            | inr there ↦ (c, there, refl, refl, λ a k. k)
          ];
        },
      )

  found_there :
      (o : Option ℕ) (actions : List (StoredRelayedAction env)) (i : ℕ)
      (s : StoredRelayedAction env)
      → relayed_at env o actions ≡ some (i, s)
      → get_elem? actions i ≡ some s
  found_there none actions i s h = cc
  found_there (some j) actions i s h = elim (Option-cases (get_elem? actions j)) [
    | inl e ↦ absurd (no_pair (rw (e, relayed_at) at h))
    | inr (t, e) ↦
        let pair : (j, t) ≡ (i, s) = some_inj (rw (e, relayed_at) at h) in
        let same = ap (λ (p : ℕ × StoredRelayedAction env). p.0) pair in
        rw (← same) (e ∙ ap (λ (p : ℕ × StoredRelayedAction env). some p.1) pair)
  ]

  target_found :
      (r : Relay env) (e : DeliveryEnvelope env ActionResponse) (administrators : List Did)
      (now : ℕ) (i : ℕ) (s : StoredRelayedAction env)
      → response_delivery_target env r e administrators now ≡ ok (i, s)
      → get_elem? r.actions i ≡ some s
  unfolding response_delivery_target relayed_by_hash
  target_found r e administrators now i s h =
      given ((or_error-ok_iff e.payload.action_envelope_hash action_not_found _ (i, s)).0 h)
        (λ (hash, has, rest).
          given
            ((or_error-ok_iff (relayed_by_hash env r hash.value) action_not_found _ (i, s)).0 rest)
            (λ (found, looked, rest2).
              given
                ((bind-ok_iff (check_response env found.1 e hash administrators now) _ (i, s)).0
                  rest2)
                (λ (u, checked, same).
                  found_there (lookup hash.value r.relayed_actions_by_envelope_hash) r.actions i s
                    (looked ∙ ap some (ok_inj same)))))

  answered-Good :
      (r : Relay env) (e : DeliveryEnvelope env ActionResponse) (at : Timestamp)
      (target : Result ServiceError (ℕ × StoredRelayedAction env))
      → ((i : ℕ) (s : StoredRelayedAction env)
          → target ≡ ok (i, s)
          → get_elem? r.actions i ≡ some s)
      → Good r (answered_of r (target >>= (λ found. ok (delivered env r e found at))))
  answered-Good r e at (err x) there = (λ k. k, Keeps-refl r)
  answered-Good r e at (ok (i, s)) there = delivered-Good r e i s at (there i s refl)

  step-Good : (r : Relay env) (op : Op) (now : ℕ) (at : Timestamp) → Good r (step r op now at)
  unfolding step submit_response_delivery
  step-Good r (begin e verifier) now at = begin-Good r e verifier at
  step-Good r (answer e administrators) now at =
      answered-Good r e at (response_delivery_target env r e administrators now)
        (target_found r e administrators now)

  run-Good : (r : Relay env) (ops : List (Op × ℕ × Timestamp)) → Good r (run r ops)
  unfolding run
  run-Good r [] = (λ k. k, Keeps-refl r)
  run-Good r ((op, now, at) ∷ ops) =
      let (first, kept) = step-Good r op now at in
      let (rest, kept_on) = run-Good (step r op now at) ops in
      (λ k. rest (first k), Keeps-trans r (step r op now at) _ kept kept_on)

  -- In every history of a relay that starts empty, accepted and refused calls alike, the sequence
  -- numbers of the stored deliveries ascend, and the next one is above them all.
  pub run-IsNumbered :
      (ops : List (Op × ℕ × Timestamp))
      → Numbered env 1 (run empty_relay ops).next_delivery_sequence (run empty_relay ops).deliveries
  unfolding run Numbered
  run-IsNumbered ops = (run-Good empty_relay ops).0 (omega arith)

  -- From any relay on, whatever calls follow, a relayed action keeps its position, its reference and
  -- its verifier, and a response that it has stays its response: the first one wins.
  pub run-Keeps : (r : Relay env) (ops : List (Op × ℕ × Timestamp)) → Keeps r (run r ops)
  run-Keeps r ops = (run-Good r ops).1
