-- ===== src/Fs/Mutations/Prepare.antt =====
-- crates/fs/src/mutations.rs: what `prepare_recorded` prepares.
use rustic_os.Base.{
  ℕ, suc, ◌+◌, ◌-◌, ◌^◌, ◌++◌, replicate, ◌≤◌, ◌<◌, ◌≡◌, refl, ap, ◌∙◌, inl, inr, arith, not, ◌&&◌,
  ltb, ◌==◌, some, List, [], ◌∷◌, length, get_or, set, Bool-cases, Option-cases, Result-cases, ok,
}
use rustic_os.Fs.{max_file}
use rustic_os.Fs.Namespace.{Node, is_empty, is_file, empty_node}
use rustic_os.Fs.Volume.{Volume, stat, located, writable, is_ready}
use rustic_os.Fs.Format.{Metadata, position_from, data_sector, write_steps}
use rustic_os.Fs.Publication.{Publication, new}
use rustic_os.Fs.Publication.Plan.{IsValid, Spare, node_bank}
use rustic_os.Fs.Publication.Isolation.{IsIsolated, Start}
use rustic_os.Fs.Mutations.{prepare_recorded, replaced}

position_from-at :
    (id i : ℕ) (nodes : List Node) (k : ℕ) (n : Node)
    → position_from id i nodes ≡ some (k, n)
    → (i ≤ k) × (k < i + length nodes) × (get_or nodes (k - i) empty_node ≡ n)
unfolding position_from
position_from-at id i [] k n h = ground arith
position_from-at id i (x ∷ rest) k n h = elim (Bool-cases ((x.id == id) && not (is_empty x.kind))) [
  | inl hit ↦
      let here : i ≡ k = ground arith in
      let it : x ≡ n = ground arith in
      let start : k - i ≡ 0 = omega arith in (omega arith, omega arith, rw start it)
  | inr miss ↦
      let (low, high, at) = position_from-at id (i + 1) rest k n (ground arith) in
      let later : k - i ≡ suc (k - (i + 1)) = omega arith in (omega arith, omega arith, rw later at)
]

pub located-at :
    (m : Metadata) (id k : ℕ) (n : Node)
    → located m id ≡ ok (k, n)
    → (k < length m.nodes) × (get_or m.nodes k empty_node ≡ n)
unfolding located
located-at m id k n h = elim (Option-cases (position_from id 0 m.nodes)) [
  | inl e ↦ ground arith
  | inr ((k', n'), e) ↦
      let same : k' ≡ k = ground arith in
      let it : n' ≡ n = ground arith in
      let (low, high, at) = position_from-at id 0 m.nodes k n (ground arith) in
      let start : k - 0 ≡ k = omega arith in (omega arith, rw start at at)
]

writable-located :
    (v : Volume) (id : ℕ) (node : Node) (k : ℕ) (n : Node)
    → writable v id ≡ ok node
    → located v.metadata id ≡ ok (k, n)
    → n ≡ node
unfolding writable stat
writable-located v id node k n h e = elim (Result-cases (is_ready v)) [
  | inr (failure, f) ↦ ground arith
  | inl (tt, f) ↦ ground arith
]

-- The buffer holds the bytes, and 0 after them.
abbrev pub start : {D : Type 0} → D → ℕ → List ℕ → Start D
start d first_sector bytes = record {
  disk = d;
  content = bytes ++ replicate (max_file - length bytes) 0;
  first_sector = first_sector;
  data_steps = 3;
}

pub new-IsIsolated :
    {D T : Type 0} (view : D → ℕ → List ℕ) (v : Volume) (d : D) (m : Metadata) (first_sector : ℕ)
    (bytes : List ℕ) (output : T)
    → Spare v first_sector 3
    → IsIsolated view v m (start d first_sector bytes) (new v d m first_sector bytes output)
unfolding new write_steps
new-IsIsolated view v d m first_sector bytes output spare = record {
  spare = spare;
  payload = (refl, refl, refl);
  stage = inl (record {
    next = refl;
    fenced = refl;
    within = ground (arith, Option-cases m.recovery);
    timing = inl (refl, ground (arith, Option-cases m.recovery));
    drains = λ e. ground arith;
  });
  live = λ s alive. refl;
  on_disk = λ i s content l planned_write. absurd (omega arith);
  unpublished = λ is_early. refl;
}

-- What `prepare_recorded` returns when it does not refuse.
pub record Prepared {D T : Type 0} (v : Volume) (d : D) (bytes : List ℕ) (p : Publication D T)
    : Type 0 where
  pub target : Metadata
  pub first_sector : ℕ
  pub output : T
  pub is_new : p ≡ new v d target first_sector bytes output
  pub spare : Spare v first_sector 3
  pub next_sequence : target.sequence ≡ v.metadata.sequence + 1

pub prepare_recorded-Prepared :
    {D T : Type 0} (v : Volume) (d : D) (id version_number : ℕ) (bytes : List ℕ) (next : Metadata)
    (output : Node → T) (p : Publication D T)
    → IsValid v
    → prepare_recorded v d id version_number bytes next output ≡ ok p
    → Prepared v d bytes p
unfolding prepare_recorded
prepare_recorded-Prepared v d id version_number bytes next output p valid h =
    elim (Result-cases (writable v id)) [
      | inr (failure, e) ↦ absurd (ground arith)
      | inl (node, e) ↦ elim (Bool-cases (is_file node.kind)) [
        | inr no_file ↦ absurd (ground arith)
        | inl is_it ↦ elim (Bool-cases (node.version == version_number)) [
          | inr stale ↦ absurd (ground arith)
          | inl current ↦ elim (Bool-cases (ltb max_file (length bytes))) [
            | inl large ↦ absurd (ground arith)
            | inr fits ↦ elim (Result-cases (located v.metadata id)) [
              | inr (failure, f) ↦ absurd (ground arith)
              | inl ((k, n), f) ↦ elim (Bool-cases (ltb (v.metadata.sequence + 1) (2 ^ 64))) [
                | inr last ↦ absurd (ground arith)
                | inl more ↦
                    let changed =
                      replaced node (get_or next.nodes k empty_node) bytes
                        (v.metadata.sequence + 1) in
                    let (below, at) = located-at v.metadata id k n f in
                    let it = writable-located v id node k n e f in
                    let same_bank : node_bank v k ≡ node.bank =
                      ap (λ (x : Node). x.bank) (at ∙ it) in
                    record {
                      target = record next {
                        nodes = set next.nodes k changed;
                        sequence = v.metadata.sequence + 1;
                      };
                      first_sector = data_sector k (1 - node.bank);
                      output = output changed;
                      is_new = ground arith;
                      spare = inr (k, omega (arith, valid.slots), refl, omega arith);
                      next_sequence = refl;
                    }
              ]
            ]
          ]
        ]
      ]
    ]
