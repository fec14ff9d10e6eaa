-- ===== src/Ipc/Broker/Linked.antt =====
-- How the channels and the handles of kernel/src/ipc/broker.rs belong together, and what keeps them so.
use mathlib.Core.Path.{subst}
use native.Mathlib.Decide.{ℕ_discrete}
use rustic_os.Base.{
  ℕ, ◌<◌, ◌≡◌, refl, sym, ap, ◌∙◌, ◌⊎◌, inl, inr, true, Option, some, List, set, arith,
}
use rustic_os.Base.Slots.{at, at-set_cases, at-set_self, at-set_ne, at_lt}
use rustic_os.Handles.{Entry}
use rustic_os.Ipc.Message.{Message}
use rustic_os.Ipc.Channel.{Side, side0, side1, other, Both, get, Channel}
use rustic_os.Ipc.Channel.Fifo.{Carries}
use rustic_os.Ipc.Broker.{Endpoint}

abbrev pub Channels : Type 0
Channels = List (Option Channel)

abbrev pub Entries : Type 0
Entries = List (Option (Entry Endpoint))

-- The entry names this channel, which is open at the entry's side.
pub record Backs (channels : Channels) (e : Entry Endpoint) : Type 0 where
  pub place : ℕ
  pub channel : Channel
  pub there : at channels place ≡ some channel
  pub named : channel.id ≡ e.object.channel
  pub open_side : get channel.open_at e.object.side ≡ true

-- Channels have ids below the counter, each its own; every handle names a channel that is open at its
-- side; no two handles name the same side of the same channel; and each channel is well formed.
pub record Linked (channels : Channels) (entries : Entries) (next : ℕ) : Type 0 where
  pub known : (i : ℕ) (c : Channel) → at channels i ≡ some c → c.id < next
  pub unique :
      (i j : ℕ) (c d : Channel)
      → at channels i ≡ some c
      → at channels j ≡ some d
      → c.id ≡ d.id
      → i ≡ j
  pub backed : (i : ℕ) (e : Entry Endpoint) → at entries i ≡ some e → Backs channels e
  pub single :
      (i j : ℕ) (e f : Entry Endpoint)
      → at entries i ≡ some e
      → at entries j ≡ some f
      → e.object.channel ≡ f.object.channel
      → e.object.side ≡ f.object.side
      → i ≡ j
  pub carried :
      (i : ℕ) (c : Channel) → at channels i ≡ some c → (w : Both (List Message)) × Carries c w

-- Two sides that differ are each other's other side.
pub side_cases : (s t : Side) → (s ≡ t) ⊎ (t ≡ other s)
side_cases side0 side0 = inl refl
side_cases side0 side1 = inr refl
side_cases side1 side0 = inr refl
side_cases side1 side1 = inl refl

-- Backing depends on the endpoint of an entry alone.
Backs-object :
    (channels : Channels) (e f : Entry Endpoint)
    → f.object ≡ e.object
    → Backs channels e
    → Backs channels f
Backs-object channels e f same b = record {
  place = b.place;
  channel = b.channel;
  there = b.there;
  named = ground arith;
  open_side = subst (λ o. get b.channel.open_at o.side ≡ true) (sym same) b.open_side;
}

-- Where an entry of the table came from, after one entry is replaced by another on its endpoint.
entry_origin :
    (entries : Entries) (slot i : ℕ) (old e f : Entry Endpoint)
    → at entries slot ≡ some old
    → e.object ≡ old.object
    → at (set entries slot (some e)) i ≡ some f
    → (g : Entry Endpoint) × (at entries i ≡ some g) × (f.object ≡ g.object)
entry_origin entries slot i old e f there same h =
    elim (at-set_cases entries slot i (some e) (at_lt entries slot there) h) [
      | inl (si, new) ↦ (old, subst (λ k. at entries k ≡ some old) si there, cc)
      | inr (_, kept) ↦ (f, kept, refl)
    ]

-- The same for a channel that changes and keeps its id and what is open.
channel_origin :
    (channels : Channels) (j i : ℕ) (c c' d : Channel)
    → at channels j ≡ some c
    → c'.id ≡ c.id
    → at (set channels j (some c')) i ≡ some d
    → (b : Channel) × (at channels i ≡ some b) × (d.id ≡ b.id)
channel_origin channels j i c c' d there same h =
    elim (at-set_cases channels j i (some c') (at_lt channels j there) h) [
      | inl (ji, new) ↦ (c, subst (λ k. at channels k ≡ some c) ji there, cc)
      | inr (_, kept) ↦ (d, kept, refl)
    ]

channel_image :
    (channels : Channels) (j i : ℕ) (c c' d : Channel)
    → at channels j ≡ some c
    → c'.id ≡ c.id
    → c'.open_at ≡ c.open_at
    → at channels i ≡ some d
    → (b : Channel) × (at (set channels j (some c')) i ≡ some b)
      × (b.id ≡ d.id)
      × (b.open_at ≡ d.open_at)
channel_image channels j i c c' d there same_id same_open h = elim (ℕ_discrete j i) [
  | yes ji ↦
      let cd : c ≡ d = cc in
      (
        c',
        subst (λ k. at (set channels j (some c')) k ≡ some c') ji
            (at-set_self channels j (some c') (at_lt channels j there)),
        same_id ∙ ap (λ x. x.id) cd,
        same_open ∙ ap (λ x. x.open_at) cd,
      )
  | no ne ↦ (d, at-set_ne channels j i (some c') ne ∙ h, refl, refl)
]

module _ (channels : Channels) (entries : Entries) (next : ℕ)
    (v : Linked channels entries next) where
  -- A handle that is moved to another owner, or renamed, keeps its endpoint.
  pub moved-Linked :
      (slot : ℕ) (old e : Entry Endpoint)
      → at entries slot ≡ some old
      → e.object ≡ old.object
      → Linked channels (set entries slot (some e)) next
  moved-Linked slot old e there same = record {
    known = v.known;
    unique = v.unique;
    backed = λ i f h.
        let (g, was, on) = entry_origin entries slot i old e f there same h in
        Backs-object channels g f on (v.backed i g was);
    single = λ i j f g hf hg sc ss.
        let (f', wf, onf) = entry_origin entries slot i old e f there same hf in
        let (g', wg, ong) = entry_origin entries slot j old e g there same hg in
        v.single i j f' g' wf wg (ground arith) (ground arith);
    carried = v.carried;
  }

  -- A channel that changes keeps its id and what is open.
  pub updated-Linked :
      (j : ℕ) (c c' : Channel) (w : Both (List Message))
      → at channels j ≡ some c
      → c'.id ≡ c.id
      → c'.open_at ≡ c.open_at
      → Carries c' w
      → Linked (set channels j (some c')) entries next
  updated-Linked j c c' w there same_id same_open h = record {
    known = λ i d hd.
        let (b, was, same) = channel_origin channels j i c c' d there same_id hd in
        subst (λ n. n < next) (sym same) (v.known i b was);
    unique = λ i k d f hd hf same.
        let (d', wd, idd) = channel_origin channels j i c c' d there same_id hd in
        let (f', wf, idf) = channel_origin channels j k c c' f there same_id hf in
        v.unique i k d' f' wd wf (sym idd ∙ same ∙ idf);
    backed = λ i e he.
        let b = v.backed i e he in
        let (d, now, same, opened) =
          channel_image channels j b.place c c' b.channel there same_id same_open b.there in
        record {
          place = b.place;
          channel = d;
          there = now;
          named = same ∙ b.named;
          open_side = subst (λ o. get o e.object.side ≡ true) (sym opened) b.open_side;
        };
    single = v.single;
    carried = λ i d hd. elim (at-set_cases channels j i (some c') (at_lt channels j there) hd) [
      | inl (_, new) ↦ (w, subst (λ x. Carries x w) (cc) h)
      | inr (_, kept) ↦ v.carried i d kept
    ];
  }
