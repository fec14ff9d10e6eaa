-- ===== src/Fs/Publication/Drive.antt =====
-- crates/fs/src/publication/writer.rs: one call of `drive` or `cancel` on an isolated publication.
use rustic_os.Base.{
  ℕ, ◌+◌, ◌-◌, ◌<◌, ◌≡◌, sym, ap, ◌∙◌, inl, inr, arith, ltb, some, List, Bool-cases, ok,
}
use rustic_os.Fs.Volume.{Volume}
use rustic_os.Fs.Storage.{Poll, ready, Answer}
use rustic_os.Fs.Format.{Metadata, Command, write, header}
use rustic_os.Fs.Publication.{Publication, total}
use rustic_os.Fs.Publication.Plan.{
  IsValid, IsLive, IsTarget, records, records_le, planned-IsTarget, target-Spare, targets_distinct,
  target-header,
}
use rustic_os.Fs.Publication.Isolation.{IsLawful, plan, IsIsolated, Start}

target :
    {D T : Type 0} (v : Volume) (m : Metadata) (p : Publication D T) (i s : ℕ) (bytes : List ℕ)
    → plan v m p i ≡ some (write s bytes)
    → IsTarget (records m) (1 - v.bank) p.first_sector p.data_steps i s
target v m p i s bytes e =
    planned-IsTarget m (1 - v.bank) p.data_bytes p.first_sector p.data_steps i s bytes e

module _ {D T : Type 0} {view : D → ℕ → List ℕ} {run : Command → D → D × Poll Answer}
    (law : IsLawful view run) {v : Volume} (valid : IsValid v) {m : Metadata} {d : Start D} where
  pub after-live :
      (p : Publication D T) (c : Command) (s : ℕ)
      → IsIsolated view v m d p
      → plan v m p p.step ≡ some c
      → IsLive v s
      → view (run c p.disk).0 s ≡ view d.disk s
  after-live p c s h e alive =
      law.kept c p.disk s (λ bytes same.
        target-Spare v (records m) p.first_sector p.data_steps p.step s valid (records_le m) h.spare
          (target v m p p.step s bytes (e ∙ ap some same)) alive)
      ∙ h.live s alive

  pub after-header :
      (p : Publication D T) (c : Command)
      → IsIsolated view v m d p
      → plan v m p p.step ≡ some c
      → p.step + 2 < total p m
      → view (run c p.disk).0 (header (1 - v.bank)) ≡ view p.disk (header (1 - v.bank))
  after-header p c h e before_it = law.kept c p.disk (header (1 - v.bank)) (λ bytes same.
      let last =
        target-header v (records m) p.first_sector p.data_steps p.step valid (records_le m) h.spare
          (target v m p p.step (header (1 - v.bank)) bytes (e ∙ ap some same)) in
      absurd (omega arith))

  pub after-earlier :
      (p : Publication D T) (c : Command) (i s : ℕ) (bytes : List ℕ)
      → IsIsolated view v m d p
      → plan v m p p.step ≡ some c
      → i < p.step
      → plan v m p i ≡ some (write s bytes)
      → view (run c p.disk).0 s ≡ bytes
  after-earlier p c i s bytes h e l earlier =
      law.kept c p.disk s (λ other same.
        let equal =
          targets_distinct v (records m) p.first_sector p.data_steps i p.step s valid (records_le m)
            h.spare (target v m p i s bytes earlier)
            (target v m p p.step s other (e ∙ ap some same)) in
        absurd (omega arith))
      ∙ h.on_disk i s bytes l earlier

  -- After the command settled well, what the steps up to it wrote is there.
  pub after-on_disk :
      (p : Publication D T) (c : Command) (i s : ℕ) (bytes : List ℕ)
      → IsIsolated view v m d p
      → plan v m p p.step ≡ some c
      → (run c p.disk).1 ≡ ready (ok tt)
      → i < p.step + 1
      → plan v m p i ≡ some (write s bytes)
      → view (run c p.disk).0 s ≡ bytes
  after-on_disk p c i s bytes h e answer l planned_write = elim (Bool-cases (ltb i p.step)) [
    | inl earlier ↦ after-earlier p c i s bytes h e (ground arith) planned_write
    | inr now ↦
        let same : i ≡ p.step = ground arith in
        let again : plan v m p p.step ≡ some (write s bytes) =
          ap (plan v m p) (sym same) ∙ planned_write in
        let it : c ≡ write s bytes = cc in rw it (law.written s bytes p.disk (rw (← it) answer))
  ]
