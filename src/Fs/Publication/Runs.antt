-- ===== src/Fs/Publication/Runs.antt =====
-- crates/fs/src/publication/writer.rs: a publication under any sequence of calls.
use mathlib.Core.Path.{subst}
use rustic_os.Base.{
  ℕ, ◌+◌, ◌-◌, ◌<◌, ◌≡◌, refl, sym, ap, ◌∙◌, ◌⊎◌, inl, inr, arith, true, false, Option, none, some,
  List, Bool-cases, Option-cases, ok, err,
}
use rustic_os.Fs.Volume.{Volume}
use rustic_os.Fs.Storage.{Poll, pending, ready, Answer}
use rustic_os.Fs.Format.{Metadata, Command}
use rustic_os.Fs.Publication.{
  Publication, Phase, preparing, ready_to_publish, settling, planned, total, settle, submit,
  drive_next, drive_at, drive, stop, cancel_at, cancel,
}
use rustic_os.Fs.Publication.Plan.{IsValid, planned-some}
use rustic_os.Fs.Publication.Isolation.{IsLawful, Going, plan, early, IsIsolated, Start}
use rustic_os.Fs.Publication.Settle.{
  go_on-IsIsolated, stop-IsIsolated, waiting-IsIsolated, failed-IsIsolated,
}

pub Poll-cases : {A : Type 0} (x : Poll A) → (x ≡ pending) ⊎ ((a : A) × (x ≡ ready a))
Poll-cases pending = inl refl
Poll-cases (ready a) = inr (a, refl)

-- A call that did not panic left an isolated publication.
abbrev pub Kept :
    {D T R : Type 0}
    → (D → ℕ → List ℕ)
    → Volume
    → Metadata
    → Start D
    → Option (Publication D T × R)
    → Type 0
Kept view v m d none = ⊥
Kept view v m d (some (q, _)) = IsIsolated view v m d q

at_phase :
    {D T : Type 0} (view : D → ℕ → List ℕ) (run : Command → D → D × Poll Answer) (v : Volume)
    (m : Metadata) (d : Start D) (p : Publication D T) (phase : Phase)
    → p.phase ≡ phase
    → Kept view v m d (drive_at run p phase)
    → Kept view v m d (drive run p)
unfolding drive
at_phase view run v m d p phase e = subst (λ f. Kept view v m d (drive_at run p f)) (sym e)

module _ {D T : Type 0} {view : D → ℕ → List ℕ} {run : Command → D → D × Poll Answer}
    (law : IsLawful view run) {v : Volume} (valid : IsValid v) {m : Metadata} {d : Start D} where
  settle-IsIsolated :
      (p : Publication D T) (c : Command)
      → IsIsolated view v m d p
      → Going v m p
      → plan v m p p.step ≡ some c
      → IsIsolated view v m d (settle p m (run c p.disk).0 (run c p.disk).1).0
  unfolding settle
  settle-IsIsolated p c h g e = elim (Poll-cases (run c p.disk).1) [
    | inl waits ↦ rw waits (waiting-IsIsolated law valid p c h g e)
    | inr (err failure, answer) ↦ rw answer (failed-IsIsolated law valid p c h g e)
    | inr (ok tt, answer) ↦ elim (Bool-cases p.stopping) [
      | inl stops ↦ rw answer (stop-IsIsolated law valid p c h g e answer stops)
      | inr goes ↦ rw answer (go_on-IsIsolated law valid p c h g e answer goes)
    ]
  ]

  drive_next-Kept :
      (p : Publication D T)
      → IsIsolated view v m d p
      → Going v m p
      → Kept view v m d (drive_next run p p.next)
  unfolding drive_next submit
  drive_next-Kept p h g =
      let bank : p.volume.bank ≡ v.bank = ap (λ w. w.bank) g.fenced in
      elim (Option-cases (plan v m p p.step)) [
        | inl nothing ↦ absurd (
            planned-some m (1 - v.bank) p.data_bytes v p.first_sector p.data_steps p.step h.spare
              g.within nothing)
        | inr (c, e) ↦
            let commanded : planned m (1 - p.volume.bank) p.data_bytes p.first_sector p.data_steps
                  p.step
                ≡ some c =
              ap (λ k. planned m (1 - k) p.data_bytes p.first_sector p.data_steps p.step) bank
              ∙ e in
            subst (λ o. Kept view v m d (drive_next run p o)) (sym g.next)
              (subst (λ o. Kept view v m d (submit run p m o)) (sym commanded)
                (settle-IsIsolated p c h g e))
      ]

  -- A drive does not panic on an isolated publication, and leaves it isolated.
  pub drive-Kept : (p : Publication D T) → IsIsolated view v m d p → Kept view v m d (drive run p)
  unfolding drive_at
  drive-Kept p h = elim h.stage [
    | inl g ↦ elim g.timing [
      | inl (phase, _) ↦ at_phase view run v m d p preparing phase (drive_next-Kept p h g)
      | inr (inl (phase, _, _)) ↦
          at_phase view run v m d p ready_to_publish phase (drive_next-Kept p h g)
      | inr (inr (phase, _)) ↦ at_phase view run v m d p settling phase (drive_next-Kept p h g)
    ]
    | inr (inl (phase, _, _)) ↦ at_phase view run v m d p Phase.committed phase h
    | inr (inr (inl (phase, _, _))) ↦ at_phase view run v m d p Phase.cancelled phase h
    | inr (inr (inr (phase, _))) ↦ at_phase view run v m d p Phase.uncertain phase h
  ]

module _ {D T : Type 0} {view : D → ℕ → List ℕ} {v : Volume} {m : Metadata} {d : Start D} where
  asked-IsIsolated :
      (p : Publication D T)
      → IsIsolated view v m d p
      → Going v m p
      → p.step + 2 < total p m
      → IsIsolated view v m d (record p { stopping = true })
  asked-IsIsolated p h g l = record {
    spare = h.spare;
    payload = h.payload;
    stage = inl (record {
      next = g.next;
      fenced = g.fenced;
      within = g.within;
      timing = g.timing;
      drains = λ _. l;
    });
    live = h.live;
    on_disk = h.on_disk;
    unpublished = h.unpublished;
  }

  dropped-IsIsolated :
      (p : Publication D T)
      → IsIsolated view v m d p
      → early p.phase ≡ true
      → p.pending ≡ false
      → (record p.volume { poisoned = false } ≡ record v { poisoned = false })
      → IsIsolated view v m d
          (record p { phase = Phase.cancelled; volume = record p.volume { poisoned = false } })
  dropped-IsIsolated p h is_early idle same = record {
    spare = h.spare;
    payload = h.payload;
    stage = inr (inr (inl (refl, same, idle)));
    live = h.live;
    on_disk = h.on_disk;
    unpublished = λ _. h.unpublished is_early;
  }

  stopping_asked :
      (p : Publication D T)
      → IsIsolated view v m d p
      → Going v m p
      → early p.phase ≡ true
      → IsIsolated view v m d (stop p p.pending).0
  stopping_asked p h g is_early = elim (Bool-cases p.pending) [
    | inl waits ↦
        let timing = g.timing in
        subst (λ w. IsIsolated view v m d (stop p w).0) (sym waits)
          (asked-IsIsolated p h g (ground arith))
    | inr idle ↦
        subst (λ w. IsIsolated view v m d (stop p w).0) (sym idle)
          (dropped-IsIsolated p h is_early idle
            (ap {A = Volume} (λ w. record w { poisoned = false }) g.fenced))
  ]

  cancel_phase :
      (p : Publication D T) (phase : Phase)
      → p.phase ≡ phase
      → IsIsolated view v m d (cancel_at p phase).0
      → IsIsolated view v m d (cancel p).0
  unfolding cancel
  cancel_phase p phase e = subst (λ f. IsIsolated view v m d (cancel_at p f).0) (sym e)

  -- A cancellation leaves an isolated publication isolated.
  pub cancel-IsIsolated :
      (p : Publication D T) → IsIsolated view v m d p → IsIsolated view v m d (cancel p).0
  unfolding cancel_at
  cancel-IsIsolated p h = elim h.stage [
    | inl g ↦ elim g.timing [
      | inl (phase, _) ↦ cancel_phase p preparing phase (stopping_asked p h g (rw phase))
      | inr (inl (phase, _, _)) ↦
          cancel_phase p ready_to_publish phase (stopping_asked p h g (rw phase))
      | inr (inr (phase, _)) ↦ cancel_phase p settling phase h
    ]
    | inr (inl (phase, _, _)) ↦ cancel_phase p Phase.committed phase h
    | inr (inr (inl (phase, volume, idle))) ↦ cancel_phase p Phase.cancelled phase (
        subst (λ w. IsIsolated view v m d (stop p w).0) (sym idle)
          (dropped-IsIsolated p h (rw phase) idle
            (ap {A = Volume} (λ w. record w { poisoned = false }) volume)))
    | inr (inr (inr (phase, _))) ↦ cancel_phase p Phase.uncertain phase h
  ]
