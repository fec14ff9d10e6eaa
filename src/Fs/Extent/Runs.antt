-- ===== src/Fs/Extent/Runs.antt =====
-- crates/fs/src/extent.rs: the runs of a file as one list, to which `push` appends.
use rustic_os.Base.{
  ℕ, zero, suc, ◌+◌, ◌*◌, ◌^◌, ◌≤◌, ◌<◌, ◌≡◌, refl, ap, ◌∙◌, inl, inr, arith, false, ◌==◌, leb, ltb,
  Option, none, some, List, [], ◌∷◌, ◌++◌, length, length-set, length-append, set, take, Bool-cases,
  ok,
}
use rustic_os.Fs.Extent.{
  Extent, Extents, new, push, present, runs_of, bytes, bytes_of, offset_of, extents_per_file,
  file_sectors_max, sector_bytes,
}

abbrev pub sectors_of : List Extent → ℕ
sectors_of [] = 0
sectors_of (run ∷ rest) = run.sectors + sectors_of rest

-- Every slot in use has a run, and `sectors` is what they have together, within the limit.
pub record IsValid (e : Extents) : Type 0 where
  pub slots : length e.runs ≡ extents_per_file
  pub within : e.used ≤ extents_per_file
  pub filled : length (runs_of e) ≡ e.used
  pub counted : e.sectors ≡ sectors_of (runs_of e)
  pub limit : e.sectors ≤ file_sectors_max

pub new-IsValid : IsValid new
unfolding new runs_of
new-IsValid = record {
  slots = refl;
  within = omega arith;
  filled = refl;
  counted = refl;
  limit = omega arith;
}

take-set :
    (xs : List (Option Extent)) (n : ℕ) (v : Option Extent)
    → n < length xs
    → take (n + 1) (set xs n v) ≡ take n xs ++ (v ∷ [])
take-set [] n v h = absurd (omega arith)
take-set (x ∷ xs) zero v h = refl
take-set (x ∷ xs) (suc n) v h =
    let one_more : suc n + 1 ≡ suc (n + 1) = omega arith in
    rw one_more (ap (λ t. x ∷ t) (take-set xs n v (omega arith)))

present-append : (xs ys : List (Option Extent)) → present (xs ++ ys) ≡ present xs ++ present ys
present-append [] ys = refl
present-append (none ∷ xs) ys = present-append xs ys
present-append (some run ∷ xs) ys = ap (λ t. run ∷ t) (present-append xs ys)

sectors_of-append : (xs ys : List Extent) → sectors_of (xs ++ ys) ≡ sectors_of xs + sectors_of ys
sectors_of-append [] ys = omega arith
sectors_of-append (x ∷ xs) ys = omega (arith, sectors_of-append xs ys)

bytes_of-sectors_of : (xs : List Extent) → bytes_of xs ≡ sectors_of xs * sector_bytes
bytes_of-sectors_of [] = refl
bytes_of-sectors_of (x ∷ xs) = omega (arith, bytes_of-sectors_of xs)

-- What a `push` that succeeds does.
pub record Appended (e : Extents) (run : Extent) (after : Extents) : Type 0 where
  pub appended : runs_of after ≡ runs_of e ++ (run ∷ [])
  pub starts : offset_of after e.used ≡ some (bytes e)
  pub total : bytes after ≡ bytes e + run.sectors * sector_bytes
  pub valid : IsValid after

abbrev pushed : Extents → Extent → Extents
pushed e run = record {
  runs = set e.runs e.used (some run);
  used = e.used + 1;
  sectors = e.sectors + run.sectors;
}

runs_of-pushed :
    (e : Extents) (run : Extent)
    → e.used < length e.runs
    → runs_of (pushed e run) ≡ runs_of e ++ (run ∷ [])
unfolding runs_of
runs_of-pushed e run h =
    ap present (take-set e.runs e.used (some run) h)
    ∙ present-append (take e.used e.runs) (some run ∷ [])

take-set_before :
    (xs : List (Option Extent)) (n : ℕ) (v : Option Extent) → take n (set xs n v) ≡ take n xs
take-set_before xs zero v = refl
take-set_before [] (suc n) v = refl
take-set_before (x ∷ xs) (suc n) v = ap (λ t. x ∷ t) (take-set_before xs n v)

offset_of-pushed :
    (e : Extents) (run : Extent) → IsValid e → offset_of (pushed e run) e.used ≡ some (bytes e)
unfolding offset_of bytes runs_of
offset_of-pushed e run v =
    let below : leb (e.used + 1) e.used ≡ false = ground arith in
    let sum = bytes_of-sectors_of (present (take e.used e.runs)) in
    rw (below, take-set_before e.runs e.used (some run)) (ap some (omega (arith, sum, v.counted)))

pushed-Appended :
    (e : Extents) (run : Extent)
    → IsValid e
    → e.used < extents_per_file
    → e.sectors + run.sectors ≤ file_sectors_max
    → Appended e run (pushed e run)
unfolding bytes
pushed-Appended e run v h l =
    let one_more = runs_of-pushed e run (omega (arith, v.slots)) in
    record {
      appended = one_more;
      starts = offset_of-pushed e run v;
      total = omega arith;
      valid = record {
        slots = length-set e.runs e.used (some run) ∙ v.slots;
        within = omega arith;
        filled = rw one_more (omega (arith, length-append (runs_of e) (run ∷ []), v.filled));
        counted = rw one_more (omega (arith, sectors_of-append (runs_of e) (run ∷ []), v.counted));
        limit = l;
      };
    }

-- A `push` that succeeds on valid runs appends the run to the file's list, which stays valid; the run
-- begins in the file where the bytes before it end.
pub push-Appended :
    (e : Extents) (run : Extent)
    → IsValid e
    → (push e run).1 ≡ ok tt
    → Appended e run (push e run).0
unfolding push
push-Appended e run v h = elim (Bool-cases (run.sectors == 0)) [
  | inl no_run ↦ ground arith
  | inr some_run ↦ elim (Bool-cases (e.used == extents_per_file)) [
    | inl no_slot ↦ ground arith
    | inr slot ↦ elim (Bool-cases (ltb (e.sectors + run.sectors) (2 ^ 64))) [
      | inr over ↦ ground arith
      | inl fits ↦ elim (Bool-cases (ltb file_sectors_max (e.sectors + run.sectors))) [
        | inl too_many ↦ ground arith
        | inr within ↦
            rw (some_run, slot, fits, within, push)
              (pushed-Appended e run v (ground (arith, v.within)) (ground arith))
      ]
    ]
  ]
]
