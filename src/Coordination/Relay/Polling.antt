-- ===== src/Coordination/Relay/Polling.antt =====
-- Polls of deliveries by pages.
use mpas.Prelude.{
  ℕ, ltb, String, Bool, true, false, not, ◌&&◌, Option, none, some, List, [], ◌∷◌, map, filter, any,
  take, if◌then◌else◌,
}
use mpas.Prelude.Eq.{◌==◌, string_eq, option_eq}
use mpas.Prelude.Chars.{is_digit, all_chars}
use mpas.Prelude.Decimal.{decimal, digits_value}
use mpas.Prelude.Result.{Result, ok, err, ◌>>=◌}
use mpas.Mpas.{Did}
use mpas.Coordination.Env.{Env}
use mpas.Coordination.Errors.{ServiceError, invalid_cursor}
use mpas.Coordination.Relay.Records.{DeliveryEnvelope, Payload, StoredDelivery, Relay}

abbrev pub delivery_page_size : ℕ
delivery_page_size = 100

-- An absent cursor is the start.
unfoldable pub parse_cursor : Option String → Result ServiceError ℕ
unfolding digits_value all_chars
parse_cursor none = ok 0
parse_cursor (some cursor) =
    if not (cursor == "") && all_chars is_digit cursor
    then ok (digits_value 0 cursor)
    else err invalid_cursor

module _ (env : Env) where
  -- Not expired; an expiry that is no time counts as past.
  unfoldable pub is_live : ℕ → StoredDelivery env → Bool
  is_live now d = elim d.envelope.expires_at [
    | none ↦ true
    | some text ↦ elim (env.date_parse text) [ none ↦ false | some t ↦ ltb now t ]
  ]

  -- What a poll of `did` behind a sequence number sees, before it is cut to a page.
  abbrev pub pending_for : Did → ℕ → ℕ → List (StoredDelivery env) → List (StoredDelivery env)
  unfolding is_live
  pending_for did now after ds =
      filter (is_live now)
        (filter (λ d. d.recipient == did) (filter (λ d. ltb after d.sequence) ds))

  abbrev pub last_sequence : List (StoredDelivery env) → Option ℕ
  last_sequence [] = none
  last_sequence (d ∷ []) = some d.sequence
  last_sequence (d ∷ e ∷ ds) = last_sequence (e ∷ ds)

  -- The page of stored deliveries behind a cursor, and the next cursor.
  unfoldable pub delivery_page :
      Relay env
      → Did
      → Option String
      → ℕ
      → Result ServiceError (List (StoredDelivery env) × Option String)
  unfolding parse_cursor decimal
  delivery_page r did cursor now = do
    after ← parse_cursor cursor
    let page = take delivery_page_size (pending_for did now after r.deliveries)
    ok (page, elim (last_sequence page) [ none ↦ none | some n ↦ some (decimal n) ])

  -- The response holds the envelopes of the page.
  pub poll_deliveries :
      Relay env
      → Did
      → Option String
      → ℕ
      → Result ServiceError (List (DeliveryEnvelope env (Payload env)) × Option String)
  unfolding delivery_page
  poll_deliveries r did cursor now = do
    (page, next) ← delivery_page r did cursor now
    ok (map (λ d. d.envelope) page, next)

  pub has_outstanding_relay_work : Relay env → Did → ℕ → Bool
  unfolding is_live
  has_outstanding_relay_work r did now = any (λ d. d.recipient == did && is_live now d) r.deliveries
