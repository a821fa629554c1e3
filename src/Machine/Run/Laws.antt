-- ===== src/Machine/Run/Laws.antt =====
-- The loop of a session comes to an end.
use frame_mc.Prelude.{ℕ, suc, ◌<◌, ◌≡◌, ◌≢◌, refl, arith, List, [], ◌∷◌, ◌++◌, length}
use frame_mc.Prelude.{none, Option-cases, inl, inr, ◌⊎◌}
use frame_mc.Error.{ProxyError}
use frame_mc.Machine.{World, Chance, PlayStateMachine}
use frame_mc.Machine.Run.{
  Event, from_client, from_backend, shutdown, Round, next, break, failed, shutdown_round, on_event,
  round, run,
}
use frame_mc.Machine.Invariant.Reach.{client_round-Goes, round-Goes}

-- How often the loop is woken by a read from the client.
unfoldable pub client_events : List Event → ℕ
client_events [] = 0
client_events (from_client chance ∷ events) = suc (client_events events)
client_events (from_backend chance ∷ events) = client_events events
client_events (shutdown ∷ events) = client_events events

Round-cases :
    {w : World} (r : Round w)
    → ((m : PlayStateMachine w) × (r ≡ next m))
      ⊎ (((m : PlayStateMachine w) × (r ≡ break m))
          ⊎ ((e : ProxyError) × (m : PlayStateMachine w) × (r ≡ failed e m)))
Round-cases (next m) = inl (m, refl)
Round-cases (break m) = inr (inl (m, refl))
Round-cases (failed e m) = inr (inr (e, m, refl))

module _ (w : World) where
  client_event_fewer :
      (chance : Chance) (m m' : PlayStateMachine w)
      → round w (from_client chance) m ≡ next m'
      → length m'.client.incoming < length m.client.incoming
  unfolding round on_event
  client_event_fewer chance m m' e = elim (Option-cases m.backend) [
    | inl h ↦ absurd (ground arith)
    | inr (b, h) ↦ (client_round-Goes w chance m m' (ground arith)).1
  ]

  -- The head event uses up a byte of the client, or is none of its events.
  pays :
      (event : Event) (events : List Event) (m m' : PlayStateMachine w)
      → round w event m ≡ next m'
      → length m.client.incoming < client_events (event ∷ events)
      → length m'.client.incoming < client_events events
  unfolding client_events
  pays (from_client chance) events m m' e h = omega (arith, client_event_fewer chance m m' e)
  pays (from_backend chance) events m m' e h =
      omega (arith, (round-Goes w (from_backend chance) m m' e).left)
  pays shutdown events m m' e h = omega (arith, (round-Goes w shutdown m m' e).left)

  -- A session ends as soon as the client has been read more often than it has sent bytes: every read
  -- that does not end the loop takes at least one byte of the client, however the backend's packets
  -- come between.
  pub run_ends :
      (events : List Event) (m : PlayStateMachine w)
      → length m.client.incoming < client_events events
      → (run w events m).0 ≢ none
  unfolding run client_events
  run_ends [] m h e = absurd (omega arith)
  run_ends (event ∷ events) m h e = elim (Round-cases (round w event m)) [
    | inl (m', r) ↦ ground (arith, run_ends events m' (pays event events m m' r h))
    | inr (inl (m', r)) ↦ ground arith
    | inr (inr (x, m', r)) ↦ ground arith
  ]

  shutdown_breaks : (m m' : PlayStateMachine w) → round w shutdown m ≢ next m'
  unfolding round on_event shutdown_round
  shutdown_breaks m m' e = elim (Option-cases m.backend) [
    | inl h ↦ ground arith
    | inr (b, h) ↦ ground arith
  ]

  -- After the shutdown signal the session is over: the loop has ended, and what would have come later
  -- changes nothing.
  pub run_shutdown :
      (events later : List Event) (m : PlayStateMachine w)
      → ((run w (events ++ (shutdown ∷ later)) m).0 ≢ none)
        × (run w (events ++ (shutdown ∷ later)) m ≡ run w (events ++ (shutdown ∷ [])) m)
  unfolding run
  run_shutdown [] later m = elim (Round-cases (round w shutdown m)) [
    | inl (m', r) ↦ absurd (shutdown_breaks m m' r)
    | inr (inl (m', r)) ↦ (λ e. ground arith, ground arith)
    | inr (inr (x, m', r)) ↦ (λ e. ground arith, ground arith)
  ]
  run_shutdown (event ∷ events) later m = elim (Round-cases (round w event m)) [
    | inl (m', r) ↦
        let ih = run_shutdown events later m' in (λ e. ground (arith, ih.0), ground (arith, ih.1))
    | inr (inl (m', r)) ↦ (λ e. ground arith, ground arith)
    | inr (inr (x, m', r)) ↦ (λ e. ground arith, ground arith)
  ]
