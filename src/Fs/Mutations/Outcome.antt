-- ===== src/Fs/Mutations/Outcome.antt =====
-- crates/fs/src/mutations.rs: the outcomes of the replacement of a file's bytes, for any calls on the
-- publication that `prepare_recorded` returns and any answers of the disk.
use mathlib.Core.Bool.{false≢true}
use rustic_os.Base.{
  ℕ, ◌+◌, ◌-◌, ◌*◌, ◌≤◌, ◌≡◌, refl, sym, ap, ◌∙◌, ◌⊎◌, inl, inr, arith, true, false, Option, none,
  some, List, ◌++◌, replicate, length, Option-cases, ok,
}
use rustic_os.Base.Bytes.{slice}
use rustic_os.Fs.{max_file}
use rustic_os.Fs.Volume.{Volume}
use rustic_os.Fs.Storage.{Disk}
use rustic_os.Fs.Namespace.{Node}
use rustic_os.Fs.Format
use rustic_os.Fs.Format.{
  Metadata, Command, write, header, write_steps, command, node_command, publication_header,
}
use rustic_os.Fs.Publication.{Publication, Phase, planned, total, new}
use rustic_os.Fs.Publication.Plan.{IsValid, IsLive}
use rustic_os.Fs.Publication.Isolation.{IsIsolated, Start, published}
use rustic_os.Fs.Mutations.{prepare_recorded}
use rustic_os.Fs.Mutations.Prepare.{Prepared, prepare_recorded-Prepared, new-IsIsolated, start}
use rustic_os.Fs.Mutations.Atomic.{Call, calls, Isolated, calls-Isolated}

Isolated-some :
    {D T : Type 0} (view : D → ℕ → List ℕ) (v : Volume) (m : Metadata) (d : Start D)
    (o : Option (Publication D T))
    → Isolated view v m d o
    → (q : Publication D T) × (o ≡ some q) × IsIsolated view v m d q
Isolated-some view v m d none h = elim h [ ]
Isolated-some view v m d (some q) h = (q, refl, h)

-- Where the calls on a prepared replacement lead.
calls-Prepared :
    {D T : Type 0} (disk : Disk D) (v : Volume) (d : D) (bytes : List ℕ) (p : Publication D T)
    (cs : List Call)
    → IsValid v
    → (made : Prepared v d bytes p)
    → (q : Publication D T) × (calls disk cs p ≡ some q)
      × IsIsolated disk.view v made.target (start d made.first_sector bytes) q
calls-Prepared disk v d bytes p cs valid made =
    Isolated-some disk.view v made.target (start d made.first_sector bytes) (calls disk cs p) (
      calls-Isolated disk valid made.target (start d made.first_sector bytes) cs p (
        rw made.is_new (
          new-IsIsolated disk.view v d made.target made.first_sector bytes made.output made.spare)))

-- No call panics on a prepared replacement, and at any point every sector that the live volume consists
-- of holds what it held at the start.
pub IsLive-stays :
    {D T : Type 0} (disk : Disk D) (v : Volume) (d : D) (id version : ℕ) (bytes : List ℕ)
    (next : Metadata) (output : Node → T) (p : Publication D T) (cs : List Call)
    → IsValid v
    → prepare_recorded v d id version bytes next output ≡ ok p
    → (q : Publication D T) × (calls disk cs p ≡ some q)
      × ((s : ℕ) → IsLive v s → disk.view q.disk s ≡ disk.view d s)
IsLive-stays disk v d id version bytes next output p cs valid h =
    let made = prepare_recorded-Prepared v d id version bytes next output p valid h in
    let (q, e, isolated) = calls-Prepared disk v d bytes p cs valid made in (q, e, isolated.live)

reached :
    {D T : Type 0} (disk : Disk D) (v : Volume) (d : D) (bytes : List ℕ) (p q : Publication D T)
    (cs : List Call)
    → IsValid v
    → (made : Prepared v d bytes p) → calls disk cs p ≡ some q
    → IsIsolated disk.view v made.target (start d made.first_sector bytes) q
reached disk v d bytes p q cs valid made e =
    let (q', e', isolated) = calls-Prepared disk v d bytes p cs valid made in
    let same : q' ≡ q = cc in rw (← same) isolated

-- Unless a prepared replacement was cancelled or committed, the volume it lends is fenced, so that a
-- publication that is forgotten, or that met an error, blocks every later use of the volume.
pub fenced_until_settled :
    {D T : Type 0} (disk : Disk D) (v : Volume) (d : D) (id version : ℕ) (bytes : List ℕ)
    (next : Metadata) (output : Node → T) (p q : Publication D T) (cs : List Call)
    → IsValid v
    → prepare_recorded v d id version bytes next output ≡ ok p
    → calls disk cs p ≡ some q
    → q.volume.poisoned ≡ false
    → (q.phase ≡ Phase.committed) ⊎ (q.phase ≡ Phase.cancelled)
fenced_until_settled disk v d id version bytes next output p q cs valid h e open_again =
    let made = prepare_recorded-Prepared v d id version bytes next output p valid h in
    elim (reached disk v d bytes p q cs valid made e).stage [
      | inl g ↦
          let closed : q.volume.poisoned ≡ true = ap (λ w. w.poisoned) g.fenced in
          absurd (false≢true (sym open_again ∙ closed))
      | inr (inl (phase, _, _)) ↦ inl phase
      | inr (inr (inl (phase, _, _))) ↦ inr phase
      | inr (inr (inr (_, volume))) ↦
          let closed : q.volume.poisoned ≡ true = ap (λ w. w.poisoned) volume in
          absurd (false≢true (sym open_again ∙ closed))
    ]

-- A replacement whose phase is cancelled, after any calls, never submitted its header: the other
-- bank's header is as it was at the start, and the volume is the old one, open again.
pub cancelled_unpublished :
    {D T : Type 0} (disk : Disk D) (v : Volume) (d : D) (id version : ℕ) (bytes : List ℕ)
    (next : Metadata) (output : Node → T) (p q : Publication D T) (cs : List Call)
    → IsValid v
    → prepare_recorded v d id version bytes next output ≡ ok p
    → calls disk cs p ≡ some q
    → q.phase ≡ Phase.cancelled
    → (q.volume ≡ record v { poisoned = false })
      × (disk.view q.disk (header (1 - v.bank)) ≡ disk.view d (header (1 - v.bank)))
cancelled_unpublished disk v d id version bytes next output p q cs valid h e phase =
    let made = prepare_recorded-Prepared v d id version bytes next output p valid h in
    let isolated = reached disk v d bytes p q cs valid made e in
    (
      elim isolated.stage [
        | inl g ↦ let timing = g.timing in absurd (ground arith)
        | inr (inl (other, _, _)) ↦ absurd (ground arith)
        | inr (inr (inl (_, volume, _))) ↦ volume
        | inr (inr (inr (other, _))) ↦ absurd (ground arith)
      ],
      isolated.unpublished (rw phase),
    )

planned-header :
    (m : Metadata) (bank : ℕ) (content : List ℕ) (first_sector data_steps : ℕ)
    → planned m bank content first_sector data_steps (data_steps + write_steps m - 2)
      ≡ some (write (header bank) (publication_header m))
unfolding planned command write_steps node_command
planned-header m bank content first_sector data_steps = elim (Option-cases m.recovery) [
  | inl e ↦ ground arith
  | inr (r, e) ↦ ground arith
]

planned-node :
    (m : Metadata) (bank : ℕ) (content : List ℕ) (first_sector data_steps i : ℕ)
    → i ≤ 3
    → planned m bank content first_sector data_steps (data_steps + (write_steps m - 7) + i)
      ≡ some (write (header bank + 1 + i) (slice (i * 512) 512 (Format.bytes m)))
unfolding planned command write_steps node_command
planned-node m bank content first_sector data_steps i l =
    let back : data_steps + 0 + i - data_steps ≡ i = omega arith in
    let back7 : data_steps + 7 + i - data_steps - 7 ≡ i = omega arith in
    elim (Option-cases m.recovery) [ inl e ↦ ground arith | inr (r, e) ↦ ground arith ]

planned-payload :
    (m : Metadata) (bank : ℕ) (content : List ℕ) (first_sector i : ℕ)
    → i ≤ 1
    → planned m bank content first_sector 3 i
      ≡ some (write (first_sector + i) (slice (i * 512) 512 content))
unfolding planned
planned-payload m bank content first_sector i l = ground arith

-- What a committed publication of `m` from `v` leaves: the volume is `m` in the other bank, and there
-- the disk has the header, the nodes and the payload of the new contents.
pub record IsPublished {D T : Type 0} (view : D → ℕ → List ℕ) (v : Volume) (m : Metadata)
    (bytes : List ℕ) (q : Publication D T) : Type 0 where
  pub volume : q.volume ≡ published v m
  pub on_header : view q.disk (header (1 - v.bank)) ≡ publication_header m
  pub on_nodes :
      (i : ℕ)
      → i ≤ 3
      → view q.disk (header (1 - v.bank) + 1 + i) ≡ slice (i * 512) 512 (Format.bytes m)
  pub on_payload :
      (i : ℕ)
      → i ≤ 1
      → view q.disk (q.first_sector + i)
        ≡ slice (i * 512) 512 (bytes ++ replicate (max_file - length bytes) 0)

write_steps_ge : (m : Metadata) → 7 ≤ write_steps m
unfolding write_steps
write_steps_ge m = ground (arith, Option-cases m.recovery)

isolated-IsPublished :
    {D T : Type 0} (view : D → ℕ → List ℕ) (v : Volume) (m : Metadata) (d : D) (first_sector : ℕ)
    (bytes : List ℕ) (q : Publication D T)
    → IsIsolated view v m (start d first_sector bytes) q
    → q.volume ≡ published v m
    → q.step ≡ total q m
    → IsPublished view v m bytes q
isolated-IsPublished view v m d first_sector bytes q h volume done =
    let (content, first, steps) = h.payload in
    let enough = write_steps_ge m in
    record {
      volume = volume;
      on_header =
          h.on_disk (q.data_steps + write_steps m - 2) _ _ (omega arith)
            (planned-header m (1 - v.bank) q.data_bytes q.first_sector q.data_steps);
      on_nodes = λ i l.
          h.on_disk (q.data_steps + (write_steps m - 7) + i) _ _ (omega arith)
            (planned-node m (1 - v.bank) q.data_bytes q.first_sector q.data_steps i l);
      on_payload = λ i l.
          h.on_disk i _ _ (omega arith) (
            ap (λ k. planned m (1 - v.bank) q.data_bytes q.first_sector k i) steps
            ∙ planned-payload m (1 - v.bank) q.data_bytes q.first_sector i l)
          ∙ ap (slice (i * 512) 512) content;
    }

-- A replacement whose phase is committed, after any calls, has made the new metadata the live volume in
-- the other bank, and the disk holds there the header, the nodes and the payload that it published.
pub committed-IsPublished :
    {D T : Type 0} (disk : Disk D) (v : Volume) (d : D) (id version : ℕ) (bytes : List ℕ)
    (next m : Metadata) (output : Node → T) (p q : Publication D T) (cs : List Call)
    → IsValid v
    → prepare_recorded v d id version bytes next output ≡ ok p
    → p.next ≡ some m
    → calls disk cs p ≡ some q
    → q.phase ≡ Phase.committed
    → IsPublished disk.view v m bytes q
unfolding new
committed-IsPublished disk v d id version bytes next m output p q cs valid h target e phase =
    let made = prepare_recorded-Prepared v d id version bytes next output p valid h in
    let isolated = reached disk v d bytes p q cs valid made e in
    let named : p.next ≡ some made.target = ap (λ x. x.next) made.is_new in
    let same : made.target ≡ m = ground arith in
    rw (← same) (elim isolated.stage [
      | inl g ↦ let timing = g.timing in absurd (ground arith)
      | inr (inl (_, volume, done)) ↦
          isolated-IsPublished disk.view v made.target d made.first_sector bytes q isolated volume
            done
      | inr (inr (inl (other, _, _))) ↦ absurd (ground arith)
      | inr (inr (inr (other, _))) ↦ absurd (ground arith)
    ])
