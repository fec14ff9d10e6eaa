-- ===== src/Ipc/Broker/Safety.antt =====
-- kernel/src/ipc/broker.rs: `send`, `peek`, `consume`, `transfer` and `close` on a broker whose handles
-- and channels belong together.
use rustic_os.Base.{
  ℕ, ◌<◌, ◌≡◌, refl, ap, ◌∙◌, inl, inr, none, some, List, set, length-set, if◌then◌else◌, arith,
  Result, ok, err, Result-cases, bit_or, List-cases, ◌^◌,
}
use rustic_os.Base.Slots.{at, at_lt, find_slot-at}
use rustic_os.Handles
use rustic_os.Handles.{Entry, names, Table}
use rustic_os.Handles.Cases.{transfer_cases, remove_cases}
use rustic_os.Handles.Invariant.{clear-IsValid, transfer-IsValid}
use rustic_os.Ipc.Abi.{Error, read, write, of_handles}
use rustic_os.Ipc.Message.{Message, decode}
use rustic_os.Ipc.Channel
use rustic_os.Ipc.Channel.{Side, side0, side1, other, Both, get, Channel, put}
use rustic_os.Ipc.Channel.Fifo.{send-Carries, sent, peek-Carries, pop-Carries}
use rustic_os.Ipc.Broker.{
  Endpoint, Broker, slot, send_on, send, peek, consume_on, consume, close_on, close, close_removed,
  transfer, endpoint_handles, handles_per_owner,
}
use rustic_os.Ipc.Broker.Invariant.{
  IsValid, slot_of_Backs, Live, resolve-Live, updated-IsValid, send_keeps,
}
use rustic_os.Ipc.Broker.Linked.{moved-Linked}
use rustic_os.Ipc.Broker.Lifetime.{left_open, closed-Linked}

-- On a valid broker `send` never fails the assertion that a live handle owns its channel, and keeps
-- the invariant.
pub send-IsValid :
    (b : Broker) (owner handle : ℕ) (bytes : List ℕ)
    → IsValid b
    → (b' : Broker) × (r : Result Error (Unit {0})) × (send b owner handle bytes ≡ some (b', r))
      × IsValid b'
unfolding send send_on
send-IsValid b owner handle bytes v =
    elim (Result-cases (Handles.resolve b.handles owner handle write)) [
      | inr (e, h) ↦ (b, err (of_handles e), ground arith, v)
      | inl (e, h) ↦ elim (Result-cases (decode bytes owner)) [
        | inr (x, d) ↦ (b, err x, ground arith, v)
        | inl (m, d) ↦
            let l = resolve-Live b owner handle write e v h in
            let (w, cw) = v.linked.carried l.place l.channel l.there in
            let (same_id, same_open) = send_keeps l.channel e.side m in
            (
              record b {
                channels = set b.channels l.place (some (Channel.send l.channel e.side m).0);
              },
              (Channel.send l.channel e.side m).1,
              ground (arith, l.found),
              updated-IsValid b l.place l.channel (Channel.send l.channel e.side m).0
                  (sent l.channel w e.side m) v l.there same_id same_open
                  (send-Carries l.channel w e.side m cw).0,
            )
      ]
    ]

-- On a valid broker `peek` never fails the assertion that a live handle owns its channel.
pub peek-total :
    (b : Broker) (owner handle : ℕ)
    → IsValid b
    → (r : Result Error Message) × (peek b owner handle ≡ some r)
unfolding peek
peek-total b owner handle v = elim (Result-cases (Handles.resolve b.handles owner handle read)) [
  | inr (e, h) ↦ (err (of_handles e), ground arith)
  | inl (e, h) ↦
      let l = resolve-Live b owner handle read e v h in
      (Channel.peek l.channel e.side, ground (arith, l.found))
]

-- What is left after a message is consumed, and the answer.
consume_on-IsValid :
    (b : Broker) (e : Endpoint)
    → IsValid b
    → Live b e
    → (b' : Broker) × (r : Result Error (Unit {0})) × (consume_on b e ≡ some (b', r)) × IsValid b'
unfolding consume_on
consume_on-IsValid b e v l =
    let (w, cw) = v.linked.carried l.place l.channel l.there in
    elim (List-cases (get w e.side)) [
      | inl none_left ↦ (
        b,
        err (if get l.channel.open_at (other e.side) then Error.would_block else Error.closed),
        ground (arith, l.found, peek-Carries l.channel w e.side cw),
        v,
      )
      | inr (m, ms, some_left) ↦
          let (c', popped, cw', same_open, same_id) =
            pop-Carries l.channel w e.side m ms cw some_left in
          (
            record b { channels = set b.channels l.place (some c') },
            ok tt,
            ground (arith, l.found, peek-Carries l.channel w e.side cw),
            updated-IsValid b l.place l.channel c' (put w e.side ms) v l.there same_id same_open
                cw',
          )
    ]

-- On a valid broker `consume` never fails an assertion, and keeps the invariant.
pub consume-IsValid :
    (b : Broker) (owner handle : ℕ)
    → IsValid b
    → (b' : Broker) × (r : Result Error (Unit {0})) × (consume b owner handle ≡ some (b', r))
      × IsValid b'
unfolding consume
consume-IsValid b owner handle v =
    elim (Result-cases (Handles.resolve b.handles owner handle read)) [
      | inr (e, h) ↦ (b, err (of_handles e), ground arith, v)
      | inl (e, h) ↦
          let (b', r, done, v') =
            consume_on-IsValid b e v (resolve-Live b owner handle read e v h) in
          (b', r, ground arith, v')
    ]

-- On a valid broker `transfer` keeps the invariant; `rights` is a byte.
pub transfer-valid :
    (b : Broker) (owner handle target rights : ℕ)
    → rights < 2 ^ 8
    → IsValid b
    → IsValid (transfer b owner handle target rights).0
unfolding transfer
transfer-valid b owner handle target rights h v =
    elim (transfer_cases handles_per_owner b.handles owner handle target rights) [
      | inl (_, same) ↦ rw same v
      | inr g ↦ record {
        handles_valid =
            transfer-IsValid endpoint_handles handles_per_owner b.handles v.handles_valid owner
              handle target rights h;
        slots = v.slots;
        linked = rw g.result (
            moved-Linked b.channels b.handles.entries b.next_channel v.linked g.slot g.old
              (record (g.old) {
                id = bit_or b.handles.domain b.handles.next;
                owner = target;
                rights = rights;
              })
              (find_slot-at (names owner handle) b.handles.entries g.slot g.old g.found).0 refl);
      }
    ]

close_on_lem :
    (b : Broker) (h : Table Endpoint) (e : Endpoint) (i : ℕ) (c : Channel)
    → slot b e ≡ some (i, c)
    → close_on (record b { handles = h }) e
      ≡ some (record b { handles = h; channels = set b.channels i (left_open c e.side) })
unfolding close_on slot
close_on_lem b h e i c found = rw (found, close_on)

close_lem :
    (b : Broker) (owner handle i place : ℕ) (e : Entry Endpoint) (c : Channel)
    → Handles.remove b.handles owner handle
      ≡ (record (b.handles) { entries = set b.handles.entries i none }, ok e.object)
    → slot b e.object ≡ some (place, c)
    → close b owner handle
      ≡ some (
        record b {
          handles = record (b.handles) { entries = set b.handles.entries i none };
          channels = set b.channels place (left_open c e.object.side);
        },
        ok tt,
      )
unfolding close
close_lem b owner handle i place e c removed found =
    let h = record (b.handles) { entries = set b.handles.entries i none } in
    ap (close_removed b) removed ∙ rw (close_on_lem b h e.object place c found, close_removed)

-- Closing a handle that is there: it goes, with its side of the channel.
pub close_found :
    (b : Broker) (owner handle i : ℕ) (e : Entry Endpoint)
    → IsValid b
    → at b.handles.entries i ≡ some e
    → Handles.remove b.handles owner handle
      ≡ (record (b.handles) { entries = set b.handles.entries i none }, ok e.object)
    → (b' : Broker) × (close b owner handle ≡ some (b', ok tt))
      × IsValid b'
      × (b'.handles ≡ record (b.handles) { entries = set b.handles.entries i none })
close_found b owner handle i e v there removed =
    let k = v.linked.backed i e there in
    (
      record b {
        handles = record (b.handles) { entries = set b.handles.entries i none };
        channels = set b.channels k.place (left_open k.channel e.object.side);
      },
      close_lem b owner handle i k.place e k.channel removed (slot_of_Backs b v.linked e k),
      record {
        handles_valid =
            clear-IsValid endpoint_handles handles_per_owner b.handles v.handles_valid i
              (at_lt b.handles.entries i there);
        slots = length-set b.channels k.place (left_open k.channel e.object.side) ∙ v.slots;
        linked =
            closed-Linked b.channels b.handles.entries b.next_channel v.linked i k.place e k.channel
              there k.there k.named;
      },
      refl,
    )

-- On a valid broker `close` never fails an assertion, and keeps the invariant.
pub close-IsValid :
    (b : Broker) (owner handle : ℕ)
    → IsValid b
    → (b' : Broker) × (r : Result Error (Unit {0})) × (close b owner handle ≡ some (b', r))
      × IsValid b'
unfolding close
close-IsValid b owner handle v = elim (remove_cases b.handles owner handle) [
  | inl (_, missing) ↦ (b, err Error.handle, ap (close_removed b) missing, v)
  | inr (i, e, _, there, removed) ↦
      let (b', done, v', _) = close_found b owner handle i e v there removed in
      (b', ok tt, done, v')
]
