-- ===== src/Ipc/Channel.antt =====
-- kernel/src/ipc/channel.rs: two bounded queues, one towards each side. A side, the index 0 or 1 of
-- the source, is a value of `Side`, and an array indexed by it is a `Both`; `1 - side` is `other`.
pub mod Fifo
use rustic_os.Base.{
  ℕ, ◌+◌, ◌-◌, ◌%◌, Bool, true, false, not, ◌&&◌, Option, none, some, List, replicate, set, ◌==◌,
  if◌then◌else◌, Result, ok, err,
}
use rustic_os.Base.Slots.{at}
use rustic_os.Ipc.Abi.{Error, would_block, closed}
use rustic_os.Ipc.Message.{Message}

pub data Side : Type 0 where
  side0 side1 : Side

abbrev pub other : Side → Side
other side0 = side1
other side1 = side0

pub record Both (A : Type 0) : Type 0 where
  pub of0 : A
  pub of1 : A

abbrev pub get : {A : Type 0} → Both A → Side → A
get b side0 = b.of0
get b side1 = b.of1

abbrev pub put : {A : Type 0} → Both A → Side → A → Both A
put b side0 a = record b { of0 = a }
put b side1 a = record b { of1 = a }

pub record Queue : Type 0 where
  pub messages : List (Option Message)
  pub head : ℕ
  pub len : ℕ

abbrev pub new_queue : Queue
new_queue = record { messages = replicate 2 none; head = 0; len = 0 }

-- `Queue::push`
unfoldable pub enqueue : Queue → Message → Queue × Result Error (Unit {0})
enqueue q m = if q.len == 2 then (q, err would_block) else (
  record q { messages = set q.messages ((q.head + q.len) % 2) (some m); len = q.len + 1 },
  ok tt,
)

-- `Queue::peek`
unfoldable pub front : Queue → Option Message
unfolding at
front q = at q.messages q.head

-- `Queue::pop`; `none` is the failure of its assertion.
unfoldable pub dequeue : Queue → Option Queue
dequeue q =
    if q.len == 0
    then none
    else some (record q {
      messages = set q.messages q.head none;
      head = (q.head + 1) % 2;
      len = q.len - 1;
    })

pub record Channel : Type 0 where
  pub id : ℕ
  pub open_at : Both Bool
  pub queues : Both Queue

abbrev pub new_channel : ℕ → Channel
new_channel id = record {
  id = id;
  open_at = record { of0 = true; of1 = true };
  queues = record { of0 = new_queue; of1 = new_queue };
}

unfoldable pub send : Channel → Side → Message → Channel × Result Error (Unit {0})
send c side m =
    if not (get c.open_at (other side))
    then (c, err closed)
    else let (q, r) = enqueue (get c.queues (other side)) m in
      (record c { queues = put c.queues (other side) q }, r)

unfoldable pub peek : Channel → Side → Result Error Message
peek c side = elim (front (get c.queues side)) [
  | some m ↦ ok m
  | none ↦ err (if get c.open_at (other side) then would_block else closed)
]

unfoldable pub pop : Channel → Side → Option Channel
pop c side = elim (dequeue (get c.queues side)) [
  | none ↦ none
  | some q ↦ some (record c { queues = put c.queues side q })
]

-- `close`; the flag says that both sides are closed now.
unfoldable pub close : Channel → Side → Channel × Bool
close c side =
    let c' : Channel = record c {
      open_at = put c.open_at side false;
      queues = put c.queues side new_queue;
    } in
    (c', not (get c'.open_at side0) && not (get c'.open_at side1))
