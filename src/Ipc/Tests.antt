-- ===== src/Ipc/Tests.antt =====
-- crates/sdk/src/ipc/message.rs and kernel/src/ipc: one message, and a channel on which it waits.
use rustic_os.Base.{ℕ, ◌≡◌, refl, arith, some, List, [], ◌∷◌, ◌++◌, take, drop, ok, err}
use rustic_os.Base.Bytes.{le, AreBytes, any_nonzero}
use rustic_os.Ipc.Message.{Message, decode, encode, message_length, padded}
use rustic_os.Ipc.Sdk
use rustic_os.Ipc.Wire.{delivered}
use rustic_os.Ipc.Identity.{encode-decode}
use rustic_os.Ipc.Abi.{Error}
use rustic_os.Ipc.Channel.{Channel, Both, side0, side1, send, pop, new_channel}
use rustic_os.Ipc.Channel.Fifo.{Carries, send-Carries, pop-Carries, sent, new_channel-Carries}

delivered_example :
    (m : Sdk.Message) × (k : Message) × (r : Sdk.Message) × (Sdk.new 9 (104 ∷ 105 ∷ []) ≡ ok m)
    × (decode (Sdk.wire m) 5 ≡ ok k)
    × (Sdk.from_received (take (message_length k) (encode k)) ≡ ok r)
    × (Sdk.correlation r ≡ 9)
    × (Sdk.sender r ≡ 5)
    × (Sdk.payload r ≡ 104 ∷ 105 ∷ [])
delivered_example =
    delivered 9 5 (104 ∷ 105 ∷ []) (omega arith) (omega arith) (λ e. ground arith) (omega arith)

-- The message as a program sends it.
abbrev hello : List ℕ
hello =
    1 ∷ 0 ∷ 1 ∷ 0 ∷ 2 ∷ 0 ∷ 0 ∷ 0 ∷ 9 ∷ 0 ∷ 0 ∷ 0 ∷ 0 ∷ 0 ∷ 0 ∷ 0 ∷ 0 ∷ 0 ∷ 0 ∷ 0 ∷ 0 ∷ 0 ∷ 0 ∷ 0
    ∷ 104 ∷ 105 ∷ []

abbrev received : Message
received = record { correlation = 9; sender = 5; payload = padded 64 (104 ∷ 105 ∷ []); len = 2 }

hello_bytes : AreBytes hello
hello_bytes = ground arith

encode-decode_example :
    take (message_length received) (encode received) ≡ take 16 hello ++ (le 8 5 ++ drop 24 hello)
unfolding decode any_nonzero
encode-decode_example = encode-decode hello 5 received hello_bytes refl

abbrev nothing_waits : Both (List Message)
nothing_waits = record { of0 = []; of1 = [] }

abbrev one_waits : Both (List Message)
one_waits = record { of0 = []; of1 = received ∷ [] }

abbrev one_sent : Channel
one_sent = (send (new_channel 3) side0 received).0

one_sent-Carries : Carries one_sent one_waits
one_sent-Carries =
    (send-Carries (new_channel 3) nothing_waits side0 received (new_channel-Carries 3)).0

send-Carries_example :
    Carries (send one_sent side0 received).0 (sent one_sent one_waits side0 received)
    × ((send one_sent side0 received).1 ≡ ok tt)
    × ((send one_sent side0 received).0.id ≡ 3)
    × ((send one_sent side0 received).0.open_at ≡ one_sent.open_at)
    × ((e : Error)
        → (send one_sent side0 received).1 ≡ err e
        → (send one_sent side0 received).0 ≡ one_sent)
unfolding send
send-Carries_example = send-Carries one_sent one_waits side0 received one_sent-Carries

pop-Carries_example :
    (c : Channel) × (pop one_sent side1 ≡ some c)
    × Carries c (record { of0 = []; of1 = [] })
    × (c.open_at ≡ one_sent.open_at)
    × (c.id ≡ one_sent.id)
pop-Carries_example = pop-Carries one_sent one_waits side1 received [] one_sent-Carries refl
