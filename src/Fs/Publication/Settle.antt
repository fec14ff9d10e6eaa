-- ===== src/Fs/Publication/Settle.antt =====
-- crates/fs/src/publication/writer.rs: what comes of a command, and the publication after it.
use rustic_os.Base.{
  ℕ, ◌+◌, ◌-◌, ◌<◌, ◌≡◌, refl, ap, ◌∙◌, ◌⊎◌, inl, inr, arith, true, false, leb, ◌==◌, Option, none,
  some, List, Bool-cases, ok,
}
use rustic_os.Fs.Volume.{Volume}
use rustic_os.Fs.Storage.{Poll, ready, Answer}
use rustic_os.Fs.Format.{Metadata, Command}
use rustic_os.Fs.Publication.{
  Publication, Phase, preparing, ready_to_publish, settling, total, before, advanced, stopped,
}
use rustic_os.Fs.Publication.Plan.{IsValid}
use rustic_os.Fs.Publication.Isolation.{
  IsLawful, Going, Stage, plan, early, published, IsIsolated, Start,
}
use rustic_os.Fs.Publication.Drive.{after-live, after-header, after-earlier, after-on_disk}

Going-preparing :
    {D T : Type 0} (v : Volume) (m : Metadata) (p : Publication D T)
    → Going v m p
    → p.step + 2 < total p m
    → p.phase ≡ preparing
Going-preparing v m p g l = let timing = g.timing in ground arith

-- While the command is pending: the phase is `settling` from the header on.
abbrev waiting : {D T : Type 0} → Publication D T → Metadata → D → Publication D T
waiting p m disk = record p { disk = disk; phase = before p m; pending = true }

waiting-Going :
    {D T : Type 0} (v : Volume) (m : Metadata) (p : Publication D T) (disk : D)
    → Going v m p
    → Going v m (waiting p m disk)
unfolding before
waiting-Going v m p disk g = record {
  next = g.next;
  fenced = g.fenced;
  within = g.within;
  timing = elim (Bool-cases (leb (total p m - 2) p.step)) [
    | inl late ↦ inr (inr (rw late, ground arith))
    | inr soon ↦ inl (rw soon (Going-preparing v m p g (ground arith)), ground arith)
  ];
  drains = g.drains;
}

waiting-early :
    {D T : Type 0} (v : Volume) (m : Metadata) (p : Publication D T)
    → Going v m p
    → early (before p m) ≡ true
    → (p.step + 2 < total p m) × (early p.phase ≡ true)
unfolding before
waiting-early v m p g h = elim (Bool-cases (leb (total p m - 2) p.step)) [
  | inl late ↦ ground arith
  | inr soon ↦ let l : p.step + 2 < total p m = ground arith in (l, rw (Going-preparing v m p g l))
]

-- The publication after a step that settled, if it goes on.
abbrev moved : {D T : Type 0} → Publication D T → D → Phase → Publication D T
moved p disk phase = record p { disk = disk; step = p.step + 1; pending = false; phase = phase }

moved-Going :
    {D T : Type 0} (v : Volume) (m : Metadata) (p : Publication D T) (disk : D) (phase : Phase)
    → Going v m p
    → ((phase ≡ preparing) × (p.step + 3 < total p m))
      ⊎ (((phase ≡ ready_to_publish) × (p.step + 3 ≡ total p m))
          ⊎ ((phase ≡ settling) × (p.step + 2 ≡ total p m)))
    → p.stopping ≡ false
    → Going v m (moved p disk phase)
moved-Going v m p disk phase g at runs = record {
  next = g.next;
  fenced = g.fenced;
  within = ground arith;
  timing = ground arith;
  drains = λ e. ground arith;
}

module _ {D T : Type 0} {view : D → ℕ → List ℕ} {run : Command → D → D × Poll Answer}
    (law : IsLawful view run) {v : Volume} (valid : IsValid v) {m : Metadata} {d : Start D} where
  pub waiting-IsIsolated :
      (p : Publication D T) (c : Command)
      → IsIsolated view v m d p
      → Going v m p
      → plan v m p p.step ≡ some c
      → IsIsolated view v m d (waiting p m (run c p.disk).0)
  waiting-IsIsolated p c h g e = record {
    spare = h.spare;
    payload = h.payload;
    stage = inl (waiting-Going v m p (run c p.disk).0 g);
    live = λ s alive. after-live law valid p c s h e alive;
    on_disk =
        λ i s bytes l planned_write. after-earlier law valid p c i s bytes h e l planned_write;
    unpublished = λ is_early.
        let (l, was_early) = waiting-early v m p g is_early in
        after-header law valid p c h e l ∙ h.unpublished was_early;
  }

  -- A command that failed leaves the volume fenced.
  pub failed-IsIsolated :
      (p : Publication D T) (c : Command)
      → IsIsolated view v m d p
      → Going v m p
      → plan v m p p.step ≡ some c
      → IsIsolated view v m d
          (record p { disk = (run c p.disk).0; phase = Phase.uncertain; pending = true })
  failed-IsIsolated p c h g e = record {
    spare = h.spare;
    payload = h.payload;
    stage = inr (inr (inr (refl, g.fenced)));
    live = λ s alive. after-live law valid p c s h e alive;
    on_disk =
        λ i s bytes l planned_write. after-earlier law valid p c i s bytes h e l planned_write;
    unpublished = λ is_early. ground arith;
  }

  -- A command that settled: what the disk holds, for any next stage.
  settled-IsIsolated :
      (p q : Publication D T) (c : Command) (volume : Volume) (next : Option Metadata)
      (phase : Phase)
      → q ≡ record (moved p (run c p.disk).0 phase) { volume = volume; next = next }
      → IsIsolated view v m d p
      → Going v m p
      → plan v m p p.step ≡ some c
      → (run c p.disk).1 ≡ ready (ok tt)
      → Stage v m (record (moved p (run c p.disk).0 phase) { volume = volume; next = next })
      → (early phase ≡ true → p.step + 2 < total p m)
      → IsIsolated view v m d q
  settled-IsIsolated p q c volume next phase same h g e answer stage soon = rw same (record {
    spare = h.spare;
    payload = h.payload;
    stage = stage;
    live = λ s alive. after-live law valid p c s h e alive;
    on_disk = λ i s bytes l planned_write.
        after-on_disk law valid p c i s bytes h e answer l planned_write;
    unpublished = λ is_early.
        let l = soon is_early in
        after-header law valid p c h e l ∙ h.unpublished (rw (Going-preparing v m p g l));
  })

  -- The stop that was asked for while the command was outstanding.
  pub stop-IsIsolated :
      (p : Publication D T) (c : Command)
      → IsIsolated view v m d p
      → Going v m p
      → plan v m p p.step ≡ some c
      → (run c p.disk).1 ≡ ready (ok tt)
      → p.stopping ≡ true
      → IsIsolated view v m d (stopped (advanced (record p { disk = (run c p.disk).0 }) m))
  unfolding stopped advanced
  stop-IsIsolated p c h g e answer stops =
      let l = g.drains stops in
      let lifted : record p.volume { poisoned = false } ≡ record v { poisoned = false } =
        ap {A = Volume} (λ w. record w { poisoned = false }) g.fenced in
      let first : (p.step + 1 == total p m) ≡ false = ground arith in
      let second : (p.step + 1 == total p m - 1) ≡ false = ground arith in
      let same : stopped (advanced (record p { disk = (run c p.disk).0 }) m)
          ≡ record (moved p (run c p.disk).0 Phase.cancelled) {
            volume = record p.volume { poisoned = false };
            next = p.next;
          } =
        elim (Bool-cases (p.step + 1 == total p m - 2)) [
          | inl ready_now ↦ rw (first, second, ready_now, stops)
          | inr not_yet ↦ rw (first, second, not_yet, stops)
        ] in
      settled-IsIsolated p (stopped (advanced (record p { disk = (run c p.disk).0 }) m)) c
        (record p.volume { poisoned = false }) p.next Phase.cancelled same h g e answer
        (inr (inr (inl (refl, lifted, refl)))) (λ _. l)

  pub go_on-IsIsolated :
      (p : Publication D T) (c : Command)
      → IsIsolated view v m d p
      → Going v m p
      → plan v m p p.step ≡ some c
      → (run c p.disk).1 ≡ ready (ok tt)
      → p.stopping ≡ false
      → IsIsolated view v m d (stopped (advanced (record p { disk = (run c p.disk).0 }) m))
  unfolding stopped advanced
  go_on-IsIsolated p c h g e answer goes =
      let disk = (run c p.disk).0 in
      let within = g.within in
      let q = stopped (advanced (record p { disk = disk }) m) in
      elim (Bool-cases (p.step + 1 == total p m)) [
        | inl last ↦
            settled-IsIsolated p q c (published p.volume m) none Phase.committed (rw (last, goes)) h
              g e answer (inr (inl (refl, ap (λ w. published w m) g.fenced, ground arith)))
              (λ is_early. ground arith)
        | inr first ↦ elim (Bool-cases (p.step + 1 == total p m - 1)) [
          | inl header_next ↦
              let at : p.step + 2 ≡ total p m = ground arith in
              settled-IsIsolated p q c p.volume p.next settling (rw (first, header_next, goes)) h g
                e answer (inl (moved-Going v m p disk settling g (inr (inr (refl, at))) goes))
                (λ is_early. ground arith)
          | inr second ↦ elim (Bool-cases (p.step + 1 == total p m - 2)) [
            | inl third ↦
                let at : p.step + 3 ≡ total p m = ground arith in
                settled-IsIsolated p q c p.volume p.next ready_to_publish
                  (rw (first, second, third, goes)) h g e answer
                  (inl (moved-Going v m p disk ready_to_publish g (inr (inl (refl, at))) goes))
                  (λ _. omega arith)
            | inr far ↦
                let at : p.step + 3 < total p m = ground arith in
                settled-IsIsolated p q c p.volume p.next preparing (rw (first, second, far, goes)) h
                  g e answer (inl (moved-Going v m p disk preparing g (inl (refl, at)) goes))
                  (λ _. omega arith)
          ]
        ]
      ]
