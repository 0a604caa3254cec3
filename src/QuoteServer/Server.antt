-- ===== src/QuoteServer/Server.antt =====
-- The goroutines of WsQuoteServer: a run is any list of their rounds. The upgrade of a connection is left
-- out; a connection is a number, and the answers to its writes are arguments. A round of the heartbeat
-- hands the connections that fail to `listenClients`, which deletes them.
use gobinace_qaggr_qrecv.Prelude.{
  ℕ, ◌==◌, Bool, true, false, List, [], ◌∷◌, ◌++◌, ◌||◌, if◌then◌else◌,
}

-- The keys of the map of clients, in the order of iteration, and whether `broadcastMessages` has not
-- returned.
pub record QuoteServer : Type 0 where
  pub clients : List ℕ
  pub broadcasting : Bool

unfoldable pub new_quote_server : QuoteServer
new_quote_server = record { clients = []; broadcasting = true }

pub data Round (M : Type 0) : Type 0 where
  register : ℕ → Round M
  unregister : ℕ → Round M
  broadcast : M → (ℕ → Bool) → Round M
  heartbeat : (ℕ → Bool) → Round M

unfoldable pub has_client : ℕ → List ℕ → Bool
has_client c [] = false
has_client c (d ∷ ds) = d == c || has_client c ds

-- `delete(server.clients, conn)`
unfoldable pub without : ℕ → List ℕ → List ℕ
without c [] = []
without c (d ∷ ds) = if d == c then ds else d ∷ without c ds

-- `listenClients`
unfoldable pub on_register : ℕ → List ℕ → List ℕ
unfolding has_client
on_register c ds = if has_client c ds then ds else c ∷ ds

unfoldable pub on_unregister : ℕ → List ℕ → List ℕ
unfolding has_client without
on_unregister c ds = if has_client c ds then without c ds else ds

-- The connections that a message is written to, and whether every write succeeds; the first that fails
-- ends `broadcastMessages`.
unfoldable pub write_all : (ℕ → Bool) → List ℕ → List ℕ × Bool
write_all writes [] = ([], true)
write_all writes (c ∷ cs) =
    let rest = write_all writes cs in if writes c then (c ∷ rest.0, rest.1) else ([], false)

-- `for conn := range server.clients`, over the clients at the start of the round.
unfoldable pub ping_all : (ℕ → Bool) → List ℕ → List ℕ → List ℕ
unfolding on_unregister
ping_all pings [] clients = clients
ping_all pings (c ∷ cs) clients =
    ping_all pings cs (if pings c then clients else on_unregister c clients)

-- Each message with a connection that it is written to.
abbrev pub addressed {ℓ} : {M : Type ℓ} → M → List ℕ → List (ℕ × M)
addressed m [] = []
addressed m (c ∷ cs) = (c, m) ∷ addressed m cs

-- Where `broadcastMessages` has returned, a broadcast waits for good.
unfoldable pub on_broadcast :
    {M : Type 0} → M → (ℕ → Bool) → QuoteServer → QuoteServer × List (ℕ × M)
unfolding write_all
on_broadcast m writes s =
    let w = write_all writes s.clients in
    if s.broadcasting then (record s { broadcasting = w.1 }, addressed m w.0) else (s, [])

unfoldable pub act : {M : Type 0} → Round M → QuoteServer → QuoteServer × List (ℕ × M)
unfolding on_register on_unregister on_broadcast ping_all
act (register c) s = (record s { clients = on_register c s.clients }, [])
act (unregister c) s = (record s { clients = on_unregister c s.clients }, [])
act (broadcast m writes) s = on_broadcast m writes s
act (heartbeat pings) s = (record s { clients = ping_all pings s.clients s.clients }, [])

unfoldable pub run : {M : Type 0} → List (Round M) → QuoteServer → QuoteServer × List (ℕ × M)
unfolding act
run [] s = (s, [])
run (a ∷ rounds) s =
    let next = act a s in let rest = run rounds next.0 in (rest.0, next.1 ++ rest.1)
