-- ===== src/Ipc/Broker/Opening.antt =====
-- `connect` of kernel/src/ipc/broker.rs on the arrays: a new channel and the two handles on its sides.
use mathlib.Core.Path.{subst}
use rustic_os.Base.{
  ℕ, ◌+◌, ◌<◌, ◌≡◌, refl, sym, ◌∙◌, ◌⊎◌, inl, inr, none, some, [], set, length, length-set, arith,
}
use rustic_os.Base.Slots.{at, at-set_cases, at-set_self, at-set_ne}
use rustic_os.Handles.{Entry}
use rustic_os.Ipc.Channel.{Side, side0, side1, Channel, new_channel}
use rustic_os.Ipc.Channel.Fifo.{Carries, new_channel-Carries}
use rustic_os.Ipc.Broker.{Endpoint}
use rustic_os.Ipc.Broker.Linked.{Channels, Entries, Backs, Linked}

-- An entry on one side of the channel that is about to be opened.
abbrev pub OnSide : ℕ → Side → Entry Endpoint → Type 0
OnSide next side e = (e.object.channel ≡ next) × (e.object.side ≡ side)

module _ (channels : Channels) (entries : Entries) (next : ℕ) (v : Linked channels entries next)
    (j s1 s2 : ℕ) (e1 e2 : Entry Endpoint) (on1 : OnSide next side0 e1) (on2 : OnSide next side1 e2)
    (free : at channels j ≡ none) (room_j : j < length channels) (room_1 : s1 < length entries)
    (room_2 : s2 < length entries) where
  abbrev entries' : Entries
  entries' = set (set entries s1 (some e1)) s2 (some e2)

  abbrev channels' : Channels
  channels' = set channels j (some (new_channel next))

  -- An entry is one of the two new ones, or it stood there before and names an older channel.
  Origin : ℕ → Entry Endpoint → Type 0
  Origin i f =
      ((i ≡ s2) × (f.object.channel ≡ next) × (f.object.side ≡ side1))
      ⊎ (((i ≡ s1) × (f.object.channel ≡ next) × (f.object.side ≡ side0))
          ⊎ ((at entries i ≡ some f) × (f.object.channel < next)))

  older : (i : ℕ) (f : Entry Endpoint) → at entries i ≡ some f → f.object.channel < next
  older i f h = let b = v.backed i f h in ground (arith, v.known b.place b.channel b.there)

  origin : (i : ℕ) (f : Entry Endpoint) → at entries' i ≡ some f → Origin i f
  unfolding Origin
  origin i f h =
      elim (at-set_cases (set entries s1 (some e1)) s2 i (some e2) (rw length-set room_2) h) [
        | inl (si, new) ↦ inl (ground arith)
        | inr (_, h1) ↦ elim (at-set_cases entries s1 i (some e1) room_1 h1) [
          | inl (si, new) ↦ inr (inl (ground arith))
          | inr (_, kept) ↦ inr (inr (kept, older i f kept))
        ]
      ]

  opened_backed : (i : ℕ) (f : Entry Endpoint) → at entries' i ≡ some f → Backs channels' f
  unfolding Origin
  opened_backed i f h = elim (origin i f h) [
    | inl (_, ch, side) ↦ record {
      place = j;
      channel = new_channel next;
      there = at-set_self channels j (some (new_channel next)) room_j;
      named = sym ch;
      open_side = rw side refl;
    }
    | inr (inl (_, ch, side)) ↦ record {
      place = j;
      channel = new_channel next;
      there = at-set_self channels j (some (new_channel next)) room_j;
      named = sym ch;
      open_side = rw side refl;
    }
    | inr (inr (kept, _)) ↦
        let b = v.backed i f kept in
        record {
          place = b.place;
          channel = b.channel;
          there = at-set_ne channels j b.place (some (new_channel next)) (λ same. cc) ∙ b.there;
          named = b.named;
          open_side = b.open_side;
        }
  ]

  opened_single :
      (i k : ℕ) (f g : Entry Endpoint)
      → at entries' i ≡ some f
      → at entries' k ≡ some g
      → f.object.channel ≡ g.object.channel
      → f.object.side ≡ g.object.side
      → i ≡ k
  unfolding Origin
  opened_single i k f g hf hg sc ss = ground (arith, origin i f hf, origin k g hg, v.single i k f g)

  opened_unique :
      (i k : ℕ) (c d : Channel)
      → at channels' i ≡ some c
      → at channels' k ≡ some d
      → c.id ≡ d.id
      → i ≡ k
  opened_unique i k c d hc hd same =
      elim (at-set_cases channels j i (some (new_channel next)) room_j hc) [
        | inl (ji, new) ↦ elim (at-set_cases channels j k (some (new_channel next)) room_j hd) [
          | inl (jk, _) ↦ sym ji ∙ jk
          | inr (_, kept) ↦ absurd (ground (arith, v.known k d kept))
        ]
        | inr (_, was) ↦ elim (at-set_cases channels j k (some (new_channel next)) room_j hd) [
          | inl (_, new) ↦ absurd (ground (arith, v.known i c was))
          | inr (_, kept) ↦ v.unique i k c d was kept same
        ]
      ]

  -- The channel's slot was free and its id is the counter, so everything stays linked.
  pub opened-Linked : Linked channels' entries' (next + 1)
  opened-Linked = record {
    known = λ i c h. elim (at-set_cases channels j i (some (new_channel next)) room_j h) [
      | inl (_, new) ↦ ground arith
      | inr (_, kept) ↦ ground (arith, v.known i c kept)
    ];
    unique = opened_unique;
    backed = opened_backed;
    single = opened_single;
    carried = λ i c h. elim (at-set_cases channels j i (some (new_channel next)) room_j h) [
      | inl (_, new) ↦ (
        record { of0 = []; of1 = [] },
        subst (λ x. Carries x (record { of0 = []; of1 = [] })) (cc) (new_channel-Carries next),
      )
      | inr (_, kept) ↦ v.carried i c kept
    ];
  }
