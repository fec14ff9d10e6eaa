-- ===== src/Ipc/Channel/Fifo.antt =====
-- kernel/src/ipc/channel.rs: the messages that its ring buffers hold, as lists, oldest first.
use rustic_os.Base.{
  ℕ, zero, suc, ◌+◌, ◌-◌, ◌%◌, ◌≤◌, ◌<◌, ◌≡◌, refl, false, not, ◌&&◌, Option, none, some, List, [],
  ◌∷◌, ◌++◌, set, ◌==◌, if◌then◌else◌, Result, ok, err, length, arith,
}
use mathlib.Core.Path.{subst}
use rustic_os.Ipc.Abi.{Error, would_block, closed}
use rustic_os.Ipc.Message.{Message}
use rustic_os.Ipc.Channel.{
  Side, side0, side1, other, Both, get, put, Queue, new_queue, enqueue, front, dequeue, Channel,
  send, peek, pop, close, new_channel,
}

-- The array that holds these messages from index `head` on.
abbrev pub layout : ℕ → List Message → List (Option Message)
layout zero [] = none ∷ none ∷ []
layout zero (m ∷ []) = some m ∷ none ∷ []
layout zero (m ∷ n ∷ ms) = some m ∷ some n ∷ []
layout (suc h) [] = none ∷ none ∷ []
layout (suc h) (m ∷ []) = none ∷ some m ∷ []
layout (suc h) (m ∷ n ∷ ms) = some n ∷ some m ∷ []

-- The queue holds exactly these messages, oldest first.
pub record Holds (q : Queue) (ms : List Message) : Type 0 where
  pub head_in : q.head < 2
  pub small : length ms ≤ 2
  pub counted : q.len ≡ length ms
  pub stored : q.messages ≡ layout q.head ms

pub new_queue-Holds : Holds new_queue []
new_queue-Holds = record {
  head_in = omega arith;
  small = omega arith;
  counted = refl;
  stored = refl;
}

-- Pushing appends, unless two messages wait already; then nothing changes.
pub enqueue-Holds :
    (q : Queue) (ms : List Message) (m : Message)
    → Holds q ms
    → Holds (enqueue q m).0 (if length ms == 2 then ms else ms ++ (m ∷ []))
      × ((enqueue q m).1 ≡ (if length ms == 2 then err would_block else ok tt))
unfolding enqueue
enqueue-Holds q [] m h = ground arith
enqueue-Holds q (a ∷ []) m h = ground arith
enqueue-Holds q (a ∷ b ∷ []) m h = ground arith
enqueue-Holds q (a ∷ b ∷ c ∷ ms) m h = absurd (omega arith)

-- The front of a queue is its oldest message.
pub front-Holds :
    (q : Queue) (m : Message) (ms : List Message) → Holds q (m ∷ ms) → front q ≡ some m
unfolding front
front-Holds q m [] h = ground arith
front-Holds q m (a ∷ []) h = ground arith
front-Holds q m (a ∷ b ∷ ms) h = absurd (omega arith)

pub front-empty : (q : Queue) → Holds q [] → front q ≡ none
unfolding front
front-empty q h = ground arith

abbrev emptied : Queue → Queue
emptied q = record q {
  messages = set q.messages q.head none;
  head = (q.head + 1) % 2;
  len = q.len - 1;
}

-- Popping a queue that is not empty removes its oldest message.
pub dequeue-Holds :
    (q : Queue) (m : Message) (ms : List Message)
    → Holds q (m ∷ ms)
    → (q' : Queue) × (dequeue q ≡ some q') × Holds q' ms
unfolding dequeue
dequeue-Holds q m [] h = (emptied q, ground arith, ground arith)
dequeue-Holds q m (a ∷ []) h = (emptied q, ground arith, ground arith)
dequeue-Holds q m (a ∷ b ∷ ms) h = absurd (omega arith)

-- The channel holds these messages towards each side, and none towards a side that is closed.
pub record Carries (c : Channel) (waiting : Both (List Message)) : Type 0 where
  pub holds0 : Holds c.queues.of0 waiting.of0
  pub holds1 : Holds c.queues.of1 waiting.of1
  pub empty0 : c.open_at.of0 ≡ false → waiting.of0 ≡ []
  pub empty1 : c.open_at.of1 ≡ false → waiting.of1 ≡ []

pub new_channel-Carries : (id : ℕ) → Carries (new_channel id) (record { of0 = []; of1 = [] })
new_channel-Carries id = record {
  holds0 = new_queue-Holds;
  holds1 = new_queue-Holds;
  empty0 = λ _. refl;
  empty1 = λ _. refl;
}

-- What `send` leaves waiting and answers, as the abstract channel decides it.
abbrev pub sent : Channel → Both (List Message) → Side → Message → Both (List Message)
sent c w side m =
    if get c.open_at (other side) && not (length (get w (other side)) == 2)
    then put w (other side) (get w (other side) ++ (m ∷ []))
    else w

refused_same :
    (c : Channel) (side : Side) (m : Message) (e : Error)
    → (send c side m).1 ≡ err e
    → (send c side m).0 ≡ c
unfolding send enqueue
refused_same c side0 m e h = ground arith
refused_same c side1 m e h = ground arith

-- On a channel that carries messages towards its sides, sending appends the message to those that wait
-- at the other side, unless that side is closed or two messages wait there. It answers accordingly, and
-- keeps the channel's id and which sides are open. When it is refused, the channel is unchanged.
pub send-Carries :
    (c : Channel) (w : Both (List Message)) (side : Side) (m : Message)
    → Carries c w
    → Carries (send c side m).0 (sent c w side m)
      × ((send c side m).1 ≡ (
          if not (get c.open_at (other side))
          then err closed
          else if length (get w (other side)) == 2
          then err would_block
          else ok tt))
      × ((send c side m).0.id ≡ c.id)
      × ((send c side m).0.open_at ≡ c.open_at)
      × ((e : Error) → (send c side m).1 ≡ err e → (send c side m).0 ≡ c)
unfolding send
send-Carries c w side0 m h = (
  ground (arith, enqueue-Holds c.queues.of1 w.of1 m h.holds1),
  ground (arith, enqueue-Holds c.queues.of1 w.of1 m h.holds1),
  ground arith,
  ground arith,
  refused_same c side0 m,
)
send-Carries c w side1 m h = (
  ground (arith, enqueue-Holds c.queues.of0 w.of0 m h.holds0),
  ground (arith, enqueue-Holds c.queues.of0 w.of0 m h.holds0),
  ground arith,
  ground arith,
  refused_same c side1 m,
)

-- What a reader of one side sees.
abbrev pub seen : Channel → List Message → Side → Result Error Message
seen c [] side = err (if get c.open_at (other side) then would_block else closed)
seen c (m ∷ ms) side = ok m

seen_lem :
    (c : Channel) (q : Queue) (ms : List Message) (side : Side)
    → Holds q ms
    → elim (front q) [
      | some m ↦ ok m
      | none ↦ err (if get c.open_at (other side) then would_block else closed)
    ]
      ≡ seen c ms side
seen_lem c q [] side h = rw (front-empty q h)
seen_lem c q (m ∷ ms) side h = rw (front-Holds q m ms h)

-- `peek` shows the oldest message waiting at the side.
pub peek-Carries :
    (c : Channel) (w : Both (List Message)) (side : Side)
    → Carries c w
    → peek c side ≡ seen c (get w side) side
unfolding peek
peek-Carries c w side0 h = seen_lem c c.queues.of0 w.of0 side0 h.holds0
peek-Carries c w side1 h = seen_lem c c.queues.of1 w.of1 side1 h.holds1

-- `pop` on a side where messages wait does not fail, and removes the oldest one.
pub pop-Carries :
    (c : Channel) (w : Both (List Message)) (side : Side) (m : Message) (ms : List Message)
    → Carries c w
    → get w side ≡ m ∷ ms
    → (c' : Channel) × (pop c side ≡ some c')
      × Carries c' (put w side ms)
      × (c'.open_at ≡ c.open_at)
      × (c'.id ≡ c.id)
unfolding pop
pop-Carries c w side0 m ms h e =
    let (q, done, rest) = dequeue-Holds c.queues.of0 m ms (subst (Holds c.queues.of0) e h.holds0) in
    (record c { queues = put c.queues side0 q }, rw (done, pop), ground arith, refl, refl)
pop-Carries c w side1 m ms h e =
    let (q, done, rest) = dequeue-Holds c.queues.of1 m ms (subst (Holds c.queues.of1) e h.holds1) in
    (record c { queues = put c.queues side1 q }, rw (done, pop), ground arith, refl, refl)

-- Closing a side drops what waits there and leaves what waits at the other.
pub close-Carries :
    (c : Channel) (w : Both (List Message)) (side : Side)
    → Carries c w
    → Carries (close c side).0 (put w side [])
unfolding close
close-Carries c w side0 h = ground (arith, new_queue-Holds)
close-Carries c w side1 h = ground (arith, new_queue-Holds)
