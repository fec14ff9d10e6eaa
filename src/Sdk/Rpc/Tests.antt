-- ===== src/Sdk/Rpc/Tests.antt =====
-- Two exchanges, the second of which fails.
use rustic_os.Base.{◌+◌, List, [], ◌∷◌}
use rustic_os.Sdk.Rpc.Exchanges.{Call, sends, accepts, run, Descending, accepted_once}

abbrev two_exchanges : List Call
two_exchanges = accepts 1 ∷ sends 2 ∷ accepts 1 ∷ sends 1 ∷ []

accepted_once_example : Descending ((run two_exchanges).state.next + 1) (run two_exchanges).done
accepted_once_example = accepted_once two_exchanges
