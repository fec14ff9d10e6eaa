-- ===== src/Fs/Publication/Plan.antt =====
-- crates/fs/src/publication/writer.rs, format/publication.rs: which sectors the commands of a
-- publication write, beside those of the live volume.
use native.Mathlib.Decide.{ℕ_discrete}
use rustic_os.Base.{
  ℕ, ◌+◌, ◌-◌, ◌*◌, ◌≤◌, ◌<◌, ◌≡◌, ◌≢◌, ap, ◌∙◌, ◌⊎◌, inl, inr, arith, leb, ltb, ◌==◌, none, some,
  List, get_or, length, Bool-cases, Option-cases, Result-cases, ok, err,
}
use rustic_os.Fs.{Error, objects}
use rustic_os.Fs.Namespace.{empty_node}
use rustic_os.Fs.Volume.{Volume}
use rustic_os.Fs.Format.{Metadata, write, header, data_sector, write_steps, node_command, command}
use rustic_os.Fs.Publication.{planned}

abbrev pub node_bank : Volume → ℕ → ℕ
node_bank v slot = (get_or v.metadata.nodes slot empty_node).bank

-- 32 slots, and banks that are 0 or 1, the volume's own and those of its nodes.
pub record IsValid (v : Volume) : Type 0 where
  pub slots : length v.metadata.nodes ≡ objects
  pub volume_bank : v.bank ≤ 1
  pub node_banks : (slot : ℕ) → node_bank v slot ≤ 1

-- The header and the nodes of a bank, and its records.
abbrev pub IsControl : ℕ → ℕ → Type 0
IsControl bank s =
    ((header bank ≤ s) × (s < header bank + 5)) ⊎ ((160 + bank * 7 ≤ s) × (s < 167 + bank * 7))

abbrev pub IsPayload : Volume → ℕ → ℕ → Type 0
IsPayload v slot s =
    (slot < 32)
    × (data_sector slot (node_bank v slot) ≤ s)
    × (s < data_sector slot (node_bank v slot) + 2)

-- A sector that the live volume consists of: the control sectors of its bank, and for each slot the two
-- sectors of the bank that the node names.
abbrev pub IsLive : Volume → ℕ → Type 0
IsLive v s = IsControl v.bank s ⊎ ((slot : ℕ) × IsPayload v slot s)

-- Where the payload of a publication goes: nowhere, or to the other bank of a slot.
abbrev pub Spare : Volume → ℕ → ℕ → Type 0
Spare v first_sector data_steps =
    (data_steps ≡ 0)
    ⊎ ((slot : ℕ) × (slot < 32)
        × (data_steps ≡ 3)
        × (first_sector ≡ data_sector slot (1 - node_bank v slot)))

abbrev pub records : Metadata → ℕ
records m = write_steps m - 7

-- The sector that a step writes: of the payload, the records, the nodes or the header.
abbrev pub IsTarget : ℕ → ℕ → ℕ → ℕ → ℕ → ℕ → Type 0
IsTarget count bank first_sector data_steps step s =
    ((step < data_steps) × (step < 2) × (s ≡ first_sector + step))
    ⊎ (((data_steps ≤ step)
          × (step < data_steps + count)
          × (s ≡ 160 + bank * 7 + (step - data_steps)))
        ⊎ (((data_steps + count ≤ step)
              × (step ≤ data_steps + count + 3)
              × (s ≡ header bank + 1 + (step - data_steps - count)))
            ⊎ ((step ≡ data_steps + count + 5) × (s ≡ header bank))))

node_command-IsTarget :
    (m : Metadata) (bank step s : ℕ) (bytes : List ℕ)
    → node_command m bank step ≡ ok (write s bytes)
    → ((step ≤ 3) × (s ≡ header bank + 1 + step)) ⊎ ((step ≡ 5) × (s ≡ header bank))
unfolding node_command
node_command-IsTarget m bank step s bytes h = elim (Bool-cases (leb step 3)) [
  | inl e ↦ inl (ground arith, ground arith)
  | inr e ↦ elim (Bool-cases (step == 5)) [
    | inl f ↦ inr (ground arith, ground arith)
    | inr f ↦ absurd (ground arith)
  ]
]

write_steps-cases : (m : Metadata) → (write_steps m ≡ 7) ⊎ (write_steps m ≡ 14)
unfolding write_steps
write_steps-cases m = elim (Option-cases m.recovery) [
  | inl e ↦ inl (rw e)
  | inr (r, e) ↦ inr (rw e)
]

command-IsTarget :
    (m : Metadata) (bank step s : ℕ) (bytes : List ℕ)
    → command m bank step ≡ ok (write s bytes)
    → ((step < records m) × (s ≡ 160 + bank * 7 + step))
      ⊎ (((records m ≤ step) × (step ≤ records m + 3) × (s ≡ header bank + 1 + (step - records m)))
          ⊎ ((step ≡ records m + 5) × (s ≡ header bank)))
unfolding command write_steps
command-IsTarget m bank step s bytes h = elim (Option-cases m.recovery) [
  | inl e ↦
      let here : node_command m bank step ≡ ok (write s bytes) = ground arith in
      elim (node_command-IsTarget m bank step s bytes here) [
        | inl (low, at) ↦ rw e (inr (inl (omega arith, omega arith, omega arith)))
        | inr (last, at) ↦ rw e (inr (inr (omega arith, at)))
      ]
  | inr (r, e) ↦ elim (Bool-cases (ltb step 7)) [
    | inl f ↦ rw e (inl (ground arith, ground arith))
    | inr f ↦
        let here : node_command m bank (step - 7) ≡ ok (write s bytes) = ground arith in
        elim (node_command-IsTarget m bank (step - 7) s bytes here) [
          | inl (low, at) ↦ rw e (inr (inl (ground arith, omega arith, omega arith)))
          | inr (last, at) ↦ rw e (inr (inr (omega arith, at)))
        ]
  ]
]

pub planned-IsTarget :
    (m : Metadata) (bank : ℕ) (content : List ℕ) (first_sector data_steps step s : ℕ)
    (bytes : List ℕ)
    → planned m bank content first_sector data_steps step ≡ some (write s bytes)
    → IsTarget (records m) bank first_sector data_steps step s
unfolding planned
planned-IsTarget m bank content first_sector data_steps step s bytes h =
    elim (Bool-cases (leb data_steps step)) [
      | inr e ↦ elim (Bool-cases (leb step 1)) [
        | inl f ↦ inl (ground arith, ground arith, ground arith)
        | inr f ↦ absurd (ground arith)
      ]
      | inl e ↦ elim (Result-cases (command m bank (step - data_steps))) [
        | inr (failure, f) ↦ absurd (ground arith)
        | inl (c, f) ↦
            let same : c ≡ write s bytes = ground arith in
            let late : data_steps ≤ step = ground arith in
            elim (command-IsTarget m bank (step - data_steps) s bytes (f ∙ ap ok same)) [
              | inl (low, at) ↦ inr (inl (late, omega arith, at))
              | inr (inl (low, high, at)) ↦ inr (inr (inl (omega arith, omega arith, omega arith)))
              | inr (inr (step_is, at)) ↦ inr (inr (inr (omega arith, at)))
            ]
      ]
    ]

pub records_le : (m : Metadata) → records m ≤ 7
records_le m = ground (arith, write_steps-cases m)

-- What a step writes is no live sector: it lies in the other bank.
pub target-Spare :
    (v : Volume) (count first_sector data_steps step s : ℕ)
    → IsValid v
    → count ≤ 7
    → Spare v first_sector data_steps
    → IsTarget count (1 - v.bank) first_sector data_steps step s
    → IsLive v s
    → ⊥
target-Spare v count first_sector data_steps step s valid few spare target live =
    let bank_le = valid.volume_bank in
    elim spare [
      | inl nothing ↦ elim live [
        | inl control ↦ grind arith
        | inr (slot, payload) ↦
            let (below, low, high) = payload in let le = valid.node_banks slot in grind arith
      ]
      | inr (slot', below', three, first) ↦
          let le' = valid.node_banks slot' in
          elim live [
            | inl control ↦ grind arith
            | inr (slot, payload) ↦
                let (below, low, high) = payload in
                let le = valid.node_banks slot in
                elim (ℕ_discrete slot slot') [
                  | yes same ↦ let bank_same = ap (node_bank v) same in grind arith
                  | no differ ↦ grind arith
                ]
          ]
    ]

-- Two steps write two different sectors.
pub targets_distinct :
    (v : Volume) (count first_sector data_steps i j s : ℕ)
    → IsValid v
    → count ≤ 7
    → Spare v first_sector data_steps
    → IsTarget count (1 - v.bank) first_sector data_steps i s
    → IsTarget count (1 - v.bank) first_sector data_steps j s
    → i ≡ j
targets_distinct v count first_sector data_steps i j s valid few spare target target' =
    let bank_le = valid.volume_bank in
    elim spare [
      | inl nothing ↦ grind arith
      | inr (slot, below, three, first) ↦ let le = valid.node_banks slot in grind arith
    ]

-- Only the last write is of the other bank's header.
pub target-header :
    (v : Volume) (count first_sector data_steps step : ℕ)
    → IsValid v
    → count ≤ 7
    → Spare v first_sector data_steps
    → IsTarget count (1 - v.bank) first_sector data_steps step (header (1 - v.bank))
    → step ≡ data_steps + count + 5
target-header v count first_sector data_steps step valid few spare target =
    let bank_le = valid.volume_bank in
    elim spare [
      | inl nothing ↦ grind arith
      | inr (slot, below, three, first) ↦ let le = valid.node_banks slot in grind arith
    ]

node_command-some :
    (m : Metadata) (bank step : ℕ) (e : Error) → step < 7 → node_command m bank step ≢ err e
unfolding node_command
node_command-some m bank step e l h = ground arith

command-some :
    (m : Metadata) (bank step : ℕ) (e : Error) → step < write_steps m → command m bank step ≢ err e
unfolding command write_steps
command-some m bank step e l h = elim (Option-cases m.recovery) [
  | inl r ↦ node_command-some m bank step e (ground arith) (ground arith)
  | inr (old, r) ↦ elim (Bool-cases (ltb step 7)) [
    | inl g ↦ ground arith
    | inr g ↦ node_command-some m bank (step - 7) e (ground arith) (ground arith)
  ]
]

-- Every step of a publication has a command.
pub planned-some :
    (m : Metadata) (bank : ℕ) (content : List ℕ) (v : Volume) (first_sector data_steps step : ℕ)
    → Spare v first_sector data_steps
    → step < data_steps + write_steps m
    → planned m bank content first_sector data_steps step ≢ none
unfolding planned
planned-some m bank content v first_sector data_steps step spare l h =
    elim (Bool-cases (leb data_steps step)) [
      | inr e ↦ ground arith
      | inl e ↦ elim (Result-cases (command m bank (step - data_steps))) [
        | inl (c, f) ↦ ground arith
        | inr (failure, f) ↦ command-some m bank (step - data_steps) failure (ground arith) f
      ]
    ]
