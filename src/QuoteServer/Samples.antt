-- ===== src/QuoteServer/Samples.antt =====
-- The quote server at concrete inputs.
use gobinace_qaggr_qrecv.Prelude.{
  ℕ, ◌==◌, Bool, true, false, List, [], ◌∷◌, ◌++◌, ◌≡◌, refl, if◌then◌else◌,
}
use gobinace_qaggr_qrecv.QuoteServer.Server.{
  Round, register, unregister, broadcast, heartbeat, new_quote_server, on_register, on_broadcast,
  addressed, act, run,
}
use gobinace_qaggr_qrecv.QuoteServer.Broadcast.{run-stalls}

abbrev arrivals : List (Round ℕ)
arrivals = register 1 ∷ register 2 ∷ register 3 ∷ register 2 ∷ broadcast 10 (λ c. true) ∷ []

-- The write to 2 fails.
abbrev but_two : ℕ → Bool
but_two c = if c == 2 then false else true

run-stalls_example :
    (run (arrivals ++ broadcast 11 but_two ∷ broadcast 12 (λ c. true) ∷ []) new_quote_server).1
    ≡ (run arrivals new_quote_server).1 ++ addressed 11 (3 ∷ [])
unfolding run act new_quote_server on_register on_broadcast
run-stalls_example =
    run-stalls arrivals (broadcast 12 (λ c. true) ∷ []) 11 but_two new_quote_server (3 ∷ []) 2
      (1 ∷ []) refl refl (refl, tt) refl

run-pinged :
    (run {M = ℕ}
      (register 1 ∷ register 2 ∷ heartbeat but_two ∷ unregister 2 ∷ [])
      new_quote_server).0.clients
    ≡ 1 ∷ []
unfolding run act new_quote_server
run-pinged = refl
