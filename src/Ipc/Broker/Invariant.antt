-- ===== src/Ipc/Broker/Invariant.antt =====
-- The invariant of the broker of kernel/src/ipc/broker.rs, and the channel that a resolved handle names.
use mathlib.Core.Path.{subst}
use rustic_os.Base.{
  ℕ, ◌≡◌, sym, ◌∙◌, true, Option, none, some, List, set, length, length-set, length-replicate, ◌==◌,
  ==_iff, arith, ok,
}
use rustic_os.Base.Slots.{at, at-replicate, find_slot_unique}
use rustic_os.Handles
use rustic_os.Handles.{Entry, names, Table}
use rustic_os.Handles.Invariant
use rustic_os.Handles.Resolve.{resolve_ok}
use rustic_os.Ipc.Abi.{all, transfer_right}
use rustic_os.Ipc.Message.{Message}
use rustic_os.Ipc.Channel
use rustic_os.Ipc.Channel.{Side, side0, side1, other, Both, get, Channel}
use rustic_os.Ipc.Channel.Fifo.{Carries}
use rustic_os.Ipc.Broker.{
  new, Endpoint, Broker, slot, channels_max, endpoint_handles, handles_per_owner,
}
use rustic_os.Ipc.Broker.Linked.{Backs, Linked, updated-Linked}

pub record IsValid (b : Broker) : Type 0 where
  pub handles_valid : Invariant.IsValid endpoint_handles handles_per_owner b.handles
  pub slots : length b.channels ≡ channels_max
  pub linked : Linked b.channels b.handles.entries b.next_channel

-- The broker starts valid.
pub new-IsValid : IsValid new
unfolding new Handles.new
new-IsValid = record {
  handles_valid =
      Invariant.new-IsValid Endpoint endpoint_handles handles_per_owner 0 all transfer_right
        (omega arith);
  slots = length-replicate {A = Option Channel} channels_max none;
  linked = record {
    known = λ i c h. ground (arith, at-replicate {A = Channel} channels_max i);
    unique = λ i j c d h k. ground (arith, at-replicate {A = Channel} channels_max i);
    backed = λ i e h. absurd (ground (arith, at-replicate {A = Entry Endpoint} endpoint_handles i));
    single = λ i j e f h k. ground (arith, at-replicate {A = Entry Endpoint} endpoint_handles i);
    carried = λ i c h. absurd (ground (arith, at-replicate {A = Channel} channels_max i));
  };
}

-- `slot` finds the channel that backs an entry.
pub slot_of_Backs :
    (b : Broker) (v : Linked b.channels b.handles.entries b.next_channel) (e : Entry Endpoint)
    → (k : Backs b.channels e) → slot b e.object ≡ some (k.place, k.channel)
unfolding slot
slot_of_Backs b v e k =
    find_slot_unique (λ c. c.id == e.object.channel) b.channels k.place k.channel k.there
      ((==_iff _ _).1 k.named)
      (λ j c h m. v.unique k.place j k.channel c k.there h (k.named ∙ sym ((==_iff _ _).0 m)))

-- The endpoint that a handle resolves to names a live channel, open at its side.
pub record Live (b : Broker) (e : Endpoint) : Type 0 where
  pub place : ℕ
  pub channel : Channel
  pub found : slot b e ≡ some (place, channel)
  pub there : at b.channels place ≡ some channel
  pub open_side : get channel.open_at e.side ≡ true

pub resolve-Live :
    (b : Broker) (owner handle right : ℕ) (e : Endpoint)
    → IsValid b
    → Handles.resolve b.handles owner handle right ≡ ok e
    → Live b e
resolve-Live b owner handle right e v h =
    let (i, entry, found, there, same) = resolve_ok b.handles owner handle right h in
    let k = v.linked.backed i entry there in
    record {
      place = k.place;
      channel = k.channel;
      found =
          subst (λ x. slot b x ≡ some (k.place, k.channel)) same (slot_of_Backs b v.linked entry k);
      there = k.there;
      open_side = subst (λ x. get k.channel.open_at x.side ≡ true) same k.open_side;
    }

-- Changing one channel in place keeps the broker valid.
pub updated-IsValid :
    (b : Broker) (i : ℕ) (c c' : Channel) (w : Both (List Message))
    → IsValid b
    → at b.channels i ≡ some c
    → c'.id ≡ c.id
    → c'.open_at ≡ c.open_at
    → Carries c' w
    → IsValid (record b { channels = set b.channels i (some c') })
updated-IsValid b i c c' w v there same_id same_open h = record {
  handles_valid = v.handles_valid;
  slots = length-set b.channels i (some c') ∙ v.slots;
  linked =
      updated-Linked b.channels b.handles.entries b.next_channel v.linked i c c' w there same_id
        same_open h;
}

pub send_keeps :
    (c : Channel) (side : Side) (m : Message)
    → ((Channel.send c side m).0.id ≡ c.id) × ((Channel.send c side m).0.open_at ≡ c.open_at)
unfolding Channel.send
send_keeps c side m = ground arith
