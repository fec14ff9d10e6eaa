-- ===== src/Ipc/Broker/Lifetime.antt =====
-- Channels come and go with their handles: `connect` and `close` of kernel/src/ipc/broker.rs, as far as
-- the arrays of channels and handles are concerned.
use mathlib.Core.Path.{subst}
use native.Mathlib.Decide.{ℕ_discrete}
use rustic_os.Base.{
  ℕ, ◌<◌, ◌≡◌, refl, sym, ap, ◌∙◌, ◌≢◌, ◌⊎◌, inl, inr, true, false, Option, none, some, [], set,
  if◌then◌else◌, arith,
}
use rustic_os.Base.Slots.{at, at-set_cases, at-set_self, at-set_ne, at-cleared, at_lt}
use rustic_os.Handles.{Entry}
use rustic_os.Ipc.Channel.{Side, side0, side1, other, get, put, Channel, close}
use rustic_os.Ipc.Channel.Fifo.{Carries, close-Carries}
use rustic_os.Ipc.Broker.{Endpoint}
use rustic_os.Ipc.Broker.Linked.{Channels, Entries, Backs, Linked, side_cases}

id-close : (c : Channel) (side : Side) → (close c side).0.id ≡ c.id
unfolding close
id-close c side = refl

-- Closing one side leaves an open other side open, and then the channel stays.
close-other :
    (c : Channel) (side : Side)
    → get c.open_at (other side) ≡ true
    → ((close c side).1 ≡ false) × (get (close c side).0.open_at (other side) ≡ true)
unfolding close
close-other c side0 h = ground arith
close-other c side1 h = ground arith

-- What stands in the place of a channel once one of its sides is closed.
abbrev pub left_open : Channel → Side → Option Channel
left_open c side = let (c', dead) = close c side in if dead then none else some c'

left_open-origin :
    (channels : Channels) (j i : ℕ) (c d : Channel) (side : Side)
    → at channels j ≡ some c
    → at (set channels j (left_open c side)) i ≡ some d
    → ((j ≡ i) × (d ≡ (close c side).0)) ⊎ ((j ≢ i) × (at channels i ≡ some d))
left_open-origin channels j i c d side there h =
    elim (at-set_cases channels j i (left_open c side) (at_lt channels j there) h) [
      | inl (ji, new) ↦ inl (ji, ground arith)
      | inr kept ↦ inr kept
    ]

module _ (channels : Channels) (entries : Entries) (next : ℕ)
    (v : Linked channels entries next) where
  left_open-known :
      (j i : ℕ) (c d : Channel) (side : Side)
      → at channels j ≡ some c
      → at (set channels j (left_open c side)) i ≡ some d
      → (b : Channel) × (at channels i ≡ some b) × (d.id ≡ b.id)
  left_open-known j i c d side there h = elim (left_open-origin channels j i c d side there h) [
    | inl (ji, e) ↦
        (c, subst (λ k. at channels k ≡ some c) ji there, ap (λ x. x.id) e ∙ id-close c side)
    | inr (_, kept) ↦ (d, kept, refl)
  ]

  -- A handle that is kept still names a channel that is open at its side.
  still_backed :
      (slot j : ℕ) (e : Entry Endpoint) (c : Channel)
      → at entries slot ≡ some e
      → at channels j ≡ some c
      → c.id ≡ e.object.channel
      → (i : ℕ) (f : Entry Endpoint) → at (set entries slot none) i ≡ some f
      → Backs (set channels j (left_open c e.object.side)) f
  still_backed slot j e c he hc named i f hf =
      elim (at-set_cases entries slot i none (at_lt entries slot he) hf) [
        | inl (_, gone) ↦ absurd (cc)
        | inr (ne, kept) ↦
            let b = v.backed i f kept in
            elim (ℕ_discrete j b.place) [
              | no apart ↦ record {
                place = b.place;
                channel = b.channel;
                there = at-set_ne channels j b.place (left_open c e.object.side) apart ∙ b.there;
                named = b.named;
                open_side = b.open_side;
              }
              | yes same ↦
                  let cb : c ≡ b.channel = cc in
                  let fc : f.object.channel ≡ e.object.channel =
                    sym b.named ∙ ap (λ x. x.id) (sym cb) ∙ named in
                  elim (side_cases e.object.side f.object.side) [
                    | inl ss ↦ absurd (ne (v.single slot i e f he kept (sym fc) ss))
                    | inr os ↦
                        let open_c : get c.open_at (other e.object.side) ≡ true =
                          subst (λ s. get c.open_at s ≡ true) os
                            (subst (λ x. get x.open_at f.object.side ≡ true) (sym cb)
                              b.open_side) in
                        let (alive, opened) = close-other c e.object.side open_c in
                        record {
                          place = j;
                          channel = (close c e.object.side).0;
                          there =
                              at-set_self channels j (left_open c e.object.side)
                                (at_lt channels j hc)
                              ∙ rw alive;
                          named = id-close c e.object.side ∙ named ∙ sym fc;
                          open_side =
                              subst (λ s. get (close c e.object.side).0.open_at s ≡ true) (sym os)
                                opened;
                        }
                  ]
            ]
      ]

  -- Removing a handle and closing its side keeps channels and handles linked.
  pub closed-Linked :
      (slot j : ℕ) (e : Entry Endpoint) (c : Channel)
      → at entries slot ≡ some e
      → at channels j ≡ some c
      → c.id ≡ e.object.channel
      → Linked (set channels j (left_open c e.object.side)) (set entries slot none) next
  closed-Linked slot j e c he hc named = record {
    known = λ i d hd.
        let (b, was, same) = left_open-known j i c d e.object.side hc hd in
        subst (λ n. n < next) (sym same) (v.known i b was);
    unique = λ i k d f hd hf same.
        let (d', wd, idd) = left_open-known j i c d e.object.side hc hd in
        let (f', wf, idf) = left_open-known j k c f e.object.side hc hf in
        v.unique i k d' f' wd wf (sym idd ∙ same ∙ idf);
    backed = λ i f hf. still_backed slot j e c he hc named i f hf;
    single = λ i k f g hf hg.
        v.single i k f g (at-cleared entries slot i f (at_lt entries slot he) hf)
          (at-cleared entries slot k g (at_lt entries slot he) hg);
    carried = λ i d hd. elim (left_open-origin channels j i c d e.object.side hc hd) [
      | inl (_, new) ↦
          let (w, h) = v.carried j c hc in
          (
            put w e.object.side [],
            subst (λ x. Carries x (put w e.object.side [])) (sym new)
                (close-Carries c w e.object.side h),
          )
      | inr (_, kept) ↦ v.carried i d kept
    ];
  }
