-- ===== src/Payment/Webhook/Events.antt =====
-- Which of the events of an order is handled.
use impact_wallet_server.Base.{
  ℕ, ◌≡◌, Bool, true, ◌&&◌, Option, none, some, List, [], ◌∷◌, ◌++◌, ◌==◌, find, filter,
}
use impact_wallet_server.Base.Http.{Result}
use impact_wallet_server.Payment.Webhook.{
  CandyPayEvent, CpPayment, Call, has_order, with_result, handle_before, called, handle_all,
}

abbrev pub is_event_of : ℕ → Bool × CandyPayEvent → Bool
is_event_of i (valid, e) = valid && (e.order_id == i)

abbrev pub is_call_of : ℕ → ℕ × Call → Bool
is_call_of i c = c.0 == i

-- The calls that the first event of an order deserves.
abbrev pub calls_of_first : ℕ → CpPayment → Option (Bool × CandyPayEvent) → List (ℕ × Call)
calls_of_first i p none = []
calls_of_first i p (some e) = called i (handle_before p e.1)

-- The calls for an order among those of one request and of the later ones.
abbrev calls_for :
    ℕ → ℕ → List (Bool × CandyPayEvent) → List CpPayment × Result (Option Call) → List (ℕ × Call)
calls_for i j es w = filter (is_call_of i) (called j w.1 ++ handle_all es w.0)

-- An event of the order itself.
abbrev Handled :
    ℕ → CandyPayEvent → List (Bool × CandyPayEvent) → List CpPayment → CpPayment → Type 0
Handled i e es ps p =
    (ps' : List CpPayment) × (find (has_order i) ps' ≡ some (with_result e p))
    × (filter (is_call_of i) (handle_all ((true, e) ∷ es) ps)
        ≡ called i (handle_before p e) ++ filter (is_call_of i) (handle_all es ps'))
