-- ===== src/Setup/Samples.antt =====
-- The start of the receiver at concrete inputs.
use gobinace_qaggr_qrecv.Prelude.{ℤ, pos, Bool, true, false, none, some, List, [], ◌∷◌, ◌≡◌, refl}
use gobinace_qaggr_qrecv.Quote.Ids.{Key, key_eq}
use gobinace_qaggr_qrecv.Symbols.Listed.{Symbol}
use gobinace_qaggr_qrecv.Symbols.Filters.{Decimals}
use gobinace_qaggr_qrecv.Symbols.Trading.{Symbols}
use gobinace_qaggr_qrecv.Setup.Start.{ok}
use gobinace_qaggr_qrecv.Setup.Accounts.{
  AccountConfig, WsApiClient, get_or_new_ws_client, reset_ws_client,
}
use gobinace_qaggr_qrecv.Setup.Receiver.{kline, Config, Answers}
use gobinace_qaggr_qrecv.Setup.Leverage.{set_leverage, set_leverage-named, Sets}
use gobinace_qaggr_qrecv.Receiver.Fanout.{to_upper}

instance abbrev sample_decimals : Decimals
sample_decimals = record {
  Decimal = ℤ;
  zero_decimal = pos 0;
  new_from_string = λ t. none;
  new_from_int = λ n. n;
}

abbrev account : AccountConfig
account = record { name = "main"; api_key = "a"; secret_key = "s"; test_net = true }

abbrev settings : Config
settings = record {
  thunder_id = "qrs";
  service_type = "recv";
  ip = "10.0.0.1";
  account = "main";
  accounts = record account { name = "other" } ∷ account ∷ [];
  trading_symbols = [];
  recv_enable = λ s. elim s [ kline ↦ false | _ ↦ true ];
  max_symbol_num_per_conn = λ s. pos 2;
  recv_snap_shot_enable = true;
  fan_out_servers = "tcp://a" ∷ [];
  mon_config = record { enable = true; report_dest = "d"; report_interval = pos 5; auth_key = "k" };
}

abbrev listed : List Symbol
listed = record { symbol = "BTCUSDT"; pair = "BTCUSDT"; status = "TRADING"; filters = [] } ∷ []

abbrev answers : Answers
answers = record {
  exchange = none ∷ some listed ∷ [];
  connects = false ∷ true ∷ [];
  new_socket = λ s. true;
  now = pos 100;
  pid = pos 7;
  mon_connects = true;
}

abbrev traded : Symbols
traded =
    ("BTCUSDT", record { symbol = "BTCUSDT"; pair = "BTCUSDT"; status = "TRADING"; filters = [] })
    ∷ []

abbrev only_eth : Key → Bool
only_eth k = key_eq k (b'E' ∷ [])

set_leverage-named_example : Sets "main" (account ∷ []) (b'e' ∷ b',' ∷ b'b' ∷ []) [] only_eth
set_leverage-named_example =
    set_leverage-named "main" (account ∷ []) b'e' (b',' ∷ b'b' ∷ []) [] only_eth

leverage-refused :
    set_leverage "main" (account ∷ []) (b'e' ∷ b',' ∷ b'b' ∷ []) (some []) only_eth
    ≡ ok (record { changed = (b'E' ∷ []) ∷ []; complete = false })
unfolding set_leverage to_upper key_eq gobinace_qaggr_qrecv.Setup.Accounts.choose_account
leverage-refused = refl

abbrev client : WsApiClient
client = record { api_key = "a"; secret_key = "s"; endpoint = "e"; is_open = true }

-- After a reset no new client is made.
get_or_new_ws_client-reset :
    get_or_new_ws_client account (true ∷ []) (reset_ws_client (some client))
    ≡ some (record client { is_open = false })
unfolding get_or_new_ws_client reset_ws_client
get_or_new_ws_client-reset = refl
