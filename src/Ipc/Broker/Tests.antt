-- ===== src/Ipc/Broker/Tests.antt =====
-- kernel/src/ipc/broker.rs: a broker where owners 5 and 6 have been connected.
use rustic_os.Base.{ℕ, ◌≡◌, some, List, [], ◌∷◌, Result, err}
use rustic_os.Handles
use rustic_os.Ipc.Abi.{Error}
use rustic_os.Ipc.Broker.{Broker, new, connect, send, consume, close, close_owner}
use rustic_os.Ipc.Broker.Invariant.{IsValid, new-IsValid}
use rustic_os.Ipc.Broker.Connect.{Connected, connect-Connected}
use rustic_os.Ipc.Broker.Safety.{send-IsValid, consume-IsValid, close-IsValid}
use rustic_os.Ipc.Broker.CloseOwner.{close_owner_total}

abbrev connected : Broker
connected = (connect new 5 6).0

connected-IsValid : IsValid connected
connected-IsValid = (connect-Connected new new-IsValid 5 6).valid

-- A message of two bytes.
abbrev hello : List ℕ
hello =
    1 ∷ 0 ∷ 1 ∷ 0 ∷ 2 ∷ 0 ∷ 0 ∷ 0 ∷ 9 ∷ 0 ∷ 0 ∷ 0 ∷ 0 ∷ 0 ∷ 0 ∷ 0 ∷ 0 ∷ 0 ∷ 0 ∷ 0 ∷ 0 ∷ 0 ∷ 0 ∷ 0
    ∷ 104 ∷ 105 ∷ []

connect-Connected_example : Connected connected (connect connected 5 7)
connect-Connected_example = connect-Connected connected connected-IsValid 5 7

send-IsValid_example :
    (b' : Broker) × (r : Result Error (Unit {0})) × (send connected 5 1 hello ≡ some (b', r))
    × IsValid b'
send-IsValid_example = send-IsValid connected 5 1 hello connected-IsValid

consume-IsValid_example :
    (b' : Broker) × (r : Result Error (Unit {0})) × (consume connected 6 2 ≡ some (b', r))
    × IsValid b'
consume-IsValid_example = consume-IsValid connected 6 2 connected-IsValid

close-IsValid_example :
    (b' : Broker) × (r : Result Error (Unit {0})) × (close connected 5 1 ≡ some (b', r))
    × IsValid b'
close-IsValid_example = close-IsValid connected 5 1 connected-IsValid

close_owner_total_example :
    (b' : Broker) × (close_owner connected 5 ≡ some b')
    × IsValid b'
    × ((id right : ℕ) → Handles.resolve b'.handles 5 id right ≡ err Handles.Error.handle)
close_owner_total_example = close_owner_total connected 5 connected-IsValid
