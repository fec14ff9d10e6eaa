-- ===== src/Fs/Mutations/Progress.antt =====
-- crates/fs/src/publication/writer.rs: `advance` on a disk that does not fail.
use mathlib.Core.Path.{subst}
use rustic_os.Base.{
  ℕ, zero, suc, ◌+◌, ◌-◌, ◌≤◌, ◌<◌, ◌≡◌, ◌≢◌, refl, ap, ◌∙◌, inl, inr, arith, false, some, List,
  replicate, Option-cases, ok,
}
use rustic_os.Fs.Volume.{Volume}
use rustic_os.Fs.Storage.{Disk, ready, execute}
use rustic_os.Fs.Namespace.{Node}
use rustic_os.Fs.Format.{Metadata, Command, write_steps}
use rustic_os.Fs.Publication.{
  Publication, Phase, planned, advanced, stopped, settle, submit, drive_next, drive_at, drive,
  advance, advance_if, of_poll, new,
}
use rustic_os.Fs.Publication.Plan.{IsValid, planned-some}
use rustic_os.Fs.Publication.Isolation.{IsIsolated, Start, Going, plan, execute-IsLawful}
use rustic_os.Fs.Publication.Settle.{go_on-IsIsolated}
use rustic_os.Fs.Mutations.{prepare_recorded}
use rustic_os.Fs.Mutations.Prepare.{Prepared, prepare_recorded-Prepared, new-IsIsolated, start}
use rustic_os.Fs.Mutations.Atomic.{advances, call, calls, sync, first, then_call}

-- A publication that `advance` alone has brought to step `j`.
record Idle {D T : Type 0} (view : D → ℕ → List ℕ) (v : Volume) (m : Metadata) (d : Start D) (j : ℕ)
    (p : Publication D T) : Type 0 where
  isolated : IsIsolated view v m d p
  no_command : p.pending ≡ false
  no_stop : p.stopping ≡ false
  at_step : p.step ≡ j
  not_cancelled : p.phase ≢ Phase.cancelled
  not_uncertain : p.phase ≢ Phase.uncertain

Idle-Going :
    {D T : Type 0} (view : D → ℕ → List ℕ) (v : Volume) (m : Metadata) (d : Start D) (j : ℕ)
    (p : Publication D T)
    → Idle view v m d j p
    → j < d.data_steps + write_steps m
    → Going v m p
Idle-Going view v m d j p i l = elim i.isolated.stage [
  | inl g ↦ g
  | inr (inl (_, _, done)) ↦
      let (_, _, steps) = i.isolated.payload in let at_step = i.at_step in absurd (omega arith)
  | inr (inr (inl (phase, _, _))) ↦ absurd (i.not_cancelled phase)
  | inr (inr (inr (phase, _))) ↦ absurd (i.not_uncertain phase)
]

-- What a step that settled leaves, besides the phase that it picks.
advanced-facts :
    {D T : Type 0} (p : Publication D T) (m : Metadata)
    → ((stopped (advanced p m)).step ≡ p.step + 1)
      × ((stopped (advanced p m)).pending ≡ false)
      × ((stopped (advanced p m)).stopping ≡ p.stopping)
unfolding stopped advanced
advanced-facts p m = ground arith

advanced-phase :
    {D T : Type 0} (p : Publication D T) (m : Metadata)
    → p.stopping ≡ false
    → ((stopped (advanced p m)).phase ≢ Phase.cancelled)
      × ((stopped (advanced p m)).phase ≢ Phase.uncertain)
unfolding stopped advanced
advanced-phase p m goes = (λ e. ground arith, λ e. ground arith)

module _ {D T : Type 0} (disk : Disk D)
    (never_fails : (c : Command) (d : D) → (execute disk c d).1 ≡ ok tt) where
  -- `advance` on a publication under way is the settlement of its command.
  drive-Going :
      (v : Volume) (m : Metadata) (p : Publication D T)
      → Going v m p
      → drive (sync disk) p ≡ drive_next (sync disk) p p.next
  unfolding drive drive_at
  drive-Going v m p g = elim g.timing [
    | inl (phase, _) ↦ ap (drive_at (sync disk) p) phase
    | inr (inl (phase, _, _)) ↦ ap (drive_at (sync disk) p) phase
    | inr (inr (phase, _)) ↦ ap (drive_at (sync disk) p) phase
  ]

  submit-settled :
      (p : Publication D T) (m : Metadata) (c : Command)
      → of_poll (submit (sync disk) p m (some c))
        ≡ some (
          stopped (advanced (record p { disk = (execute disk c p.disk).0 }) m),
          ok (stopped (advanced (record p { disk = (execute disk c p.disk).0 }) m)).phase,
        )
  unfolding submit settle
  submit-settled p m c = rw (never_fails c p.disk)

  planned-Going :
      (v : Volume) (m : Metadata) (p : Publication D T) (c : Command)
      → Going v m p
      → plan v m p p.step ≡ some c
      → drive_next (sync disk) p p.next ≡ submit (sync disk) p m (some c)
  unfolding drive_next
  planned-Going v m p c g e =
      let bank : p.volume.bank ≡ v.bank = ap (λ w. w.bank) g.fenced in
      let commanded : planned m (1 - p.volume.bank) p.data_bytes p.first_sector p.data_steps p.step
          ≡ some c =
        ap (λ k. planned m (1 - k) p.data_bytes p.first_sector p.data_steps p.step) bank ∙ e in
      ap (drive_next (sync disk) p) g.next ∙ ap (submit (sync disk) p m) commanded

  advance-Idle :
      (v : Volume) (m : Metadata) (d : Start D) (j : ℕ) (p : Publication D T)
      → IsValid v
      → Idle disk.view v m d j p
      → j < d.data_steps + write_steps m
      → (q : Publication D T) × (call disk advances p ≡ some q) × Idle disk.view v m d (j + 1) q
  unfolding call advance advance_if
  advance-Idle v m d j p valid i l =
      let g = Idle-Going disk.view v m d j p i l in
      elim (Option-cases (plan v m p p.step)) [
        | inl nothing ↦ absurd (
            planned-some m (1 - v.bank) p.data_bytes v p.first_sector p.data_steps p.step
              i.isolated.spare g.within nothing)
        | inr (c, e) ↦
            let q = stopped (advanced (record p { disk = (execute disk c p.disk).0 }) m) in
            let at_step = i.at_step in
            let (next_step, idle, same_stop) =
              advanced-facts (record p { disk = (execute disk c p.disk).0 }) m in
            let (alive, certain) =
              advanced-phase (record p { disk = (execute disk c p.disk).0 }) m i.no_stop in
            (
              q,
              ap (λ w. first (advance_if disk p w)) i.no_command
                  ∙ ap (λ o. first (of_poll o)) (drive-Going v m p g ∙ planned-Going v m p c g e)
                  ∙ ap first (submit-settled p m c),
              record {
                isolated =
                    go_on-IsIsolated (execute-IsLawful disk) valid p c i.isolated g e
                      (ap ready (never_fails c p.disk)) i.no_stop;
                no_command = idle;
                no_stop = same_stop ∙ i.no_stop;
                at_step = omega (arith, next_step);
                not_cancelled = alive;
                not_uncertain = certain;
              },
            )
      ]

  advances-Idle :
      (v : Volume) (m : Metadata) (d : Start D) (k : ℕ) (p : Publication D T)
      → IsValid v
      → Idle disk.view v m d 0 p
      → k ≤ d.data_steps + write_steps m
      → (q : Publication D T) × (calls disk (replicate k advances) p ≡ some q)
        × Idle disk.view v m d k q
  unfolding calls
  advances-Idle v m d zero p valid i l = (p, refl, i)
  advances-Idle v m d (suc k) p valid i l =
      let (before_last, e, there) = advances-Idle v m d k p valid i (omega arith) in
      let (q, e', i') = advance-Idle v m d k before_last valid there (omega arith) in
      let one_more : k + 1 ≡ suc k = omega arith in
      (q, ap (then_call disk advances) e ∙ e', subst (λ j. Idle disk.view v m d j q) one_more i')

  Idle-committed :
      (v : Volume) (m : Metadata) (d : Start D) (q : Publication D T)
      → Idle disk.view v m d (d.data_steps + write_steps m) q
      → q.phase ≡ Phase.committed
  Idle-committed v m d q i = elim i.isolated.stage [
    | inl g ↦
        let (_, _, steps) = i.isolated.payload in
        let at_step = i.at_step in let within = g.within in absurd (omega arith)
    | inr (inl (phase, _, _)) ↦ phase
    | inr (inr (inl (phase, _, _))) ↦ absurd (i.not_cancelled phase)
    | inr (inr (inr (phase, _))) ↦ absurd (i.not_uncertain phase)
  ]

  start-Idle :
      (v : Volume) (d : D) (bytes : List ℕ) (p : Publication D T) (made : Prepared v d bytes p)
      → Idle disk.view v made.target (start d made.first_sector bytes) 0 p
  unfolding new
  start-Idle v d bytes p made = rw made.is_new (record {
    isolated =
        new-IsIsolated disk.view v d made.target made.first_sector bytes made.output made.spare;
    no_command = refl;
    no_stop = refl;
    at_step = refl;
    not_cancelled = λ e. ground arith;
    not_uncertain = λ e. ground arith;
  })

  -- On a disk whose commands never fail, a prepared replacement is committed after as many calls of
  -- `advance` as it has steps: three for the payload, and those of the new metadata.
  pub advances_commit :
      (v : Volume) (d : D) (id version : ℕ) (bytes : List ℕ) (next m : Metadata) (output : Node → T)
      (p : Publication D T)
      → IsValid v
      → prepare_recorded v d id version bytes next output ≡ ok p
      → p.next ≡ some m
      → (q : Publication D T) × (calls disk (replicate (3 + write_steps m) advances) p ≡ some q)
        × (q.phase ≡ Phase.committed)
  unfolding new
  advances_commit v d id version bytes next m output p valid h target =
      let made = prepare_recorded-Prepared v d id version bytes next output p valid h in
      let named : p.next ≡ some made.target = ap (λ x. x.next) made.is_new in
      let same : made.target ≡ m = ground arith in
      let (q, e, i) =
        advances-Idle v made.target (start d made.first_sector bytes) (3 + write_steps made.target)
          p valid (start-Idle v d bytes p made) (omega arith) in
      (
        q,
        subst (λ x. calls disk (replicate (3 + write_steps x) advances) p ≡ some q) same e,
        Idle-committed v made.target (start d made.first_sector bytes) q i,
      )
