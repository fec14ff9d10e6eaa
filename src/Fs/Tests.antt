-- ===== src/Fs/Tests.antt =====
-- A volume with one file on a disk in memory, a map of free sectors, and the theorems there.
use rustic_os.Base.{
  ℕ, zero, suc, ◌+◌, ◌≤◌, ◌≡◌, ◌≢◌, refl, ap, ◌⊎◌, arith, false, ◌==◌, ==_self, ==_of_ne, Option,
  none, some, List, [], ◌∷◌, replicate, set, get_or, if◌then◌else◌, ok,
}
use rustic_os.Fs.Namespace.{Node, empty_node, file}
use rustic_os.Fs.Format.{
  Command, write, flush, Metadata, data_sector, header, position_from, write_steps, command,
}
use rustic_os.Fs.Storage.{Disk, ready, poll, execute}
use rustic_os.Fs.Volume.{Volume, stat, located, is_ready, writable}
use rustic_os.Fs.Publication.{Publication, Phase, new, advance, poll_advance, cancel}
use rustic_os.Fs.Publication.Plan.{IsValid, IsLive, node_bank}
use rustic_os.Fs.Mutations.{prepare_recorded, replaced}
use rustic_os.Fs.Mutations.Atomic.{Call, advances, cancels, polls, call, calls}
use rustic_os.Fs.Mutations.Progress.{advances_commit}
use rustic_os.Fs.Mutations.Outcome.{
  IsLive-stays, fenced_until_settled, cancelled_unpublished, committed-IsPublished, IsPublished,
}

abbrev Memory : Type 0
Memory = ℕ → List ℕ

abbrev put : ℕ → List ℕ → Memory → Memory
put s bytes d t = if s == t then bytes else d t

put_others : (s t : ℕ) (bytes : List ℕ) (d : Memory) → s ≢ t → put s bytes d t ≡ d t
put_others s t bytes d h = rw (==_of_ne s t h)

put_there : (s : ℕ) (bytes : List ℕ) (d : Memory) → put s bytes d s ≡ bytes
put_there s bytes d = rw (==_self s)

-- A disk that does what it is told at once.
abbrev in_memory : Disk Memory
in_memory = record {
  view = λ d s. d s;
  write = λ s bytes d. (put s bytes d, ok tt);
  flush = λ d. (d, ok tt);
  poll_write = λ s bytes d. (put s bytes d, ready (ok tt));
  poll_flush = λ d. (d, ready (ok tt));
  write_others = put_others;
  write_settled = λ s bytes d _. put_there s bytes d;
  flush_keeps = λ t d. refl;
  poll_write_others = put_others;
  poll_write_settled = λ s bytes d _. put_there s bytes d;
  poll_flush_keeps = λ t d. refl;
}

abbrev blank : Memory
blank s = replicate 512 0

-- The file of id 5 in the directory of id 2.
abbrev notes : Node
notes = record empty_node {
  id = 5;
  parent = 2;
  version = 2;
  kind = file;
  space = 2;
  name_bytes = 110 ∷ replicate 31 0;
  name_length = 1;
}

abbrev one_file : Metadata
one_file = record {
  sequence = 2;
  next = 6;
  nodes = empty_node ∷ empty_node ∷ empty_node ∷ empty_node ∷ notes ∷ replicate 27 empty_node;
  recovery = none;
}

abbrev volume : Volume
volume = record { metadata = one_file; bank = 0; poisoned = false }

replicate-empty_node : (n i : ℕ) → get_or (replicate n empty_node) i empty_node ≡ empty_node
replicate-empty_node zero i = refl
replicate-empty_node (suc n) zero = refl
replicate-empty_node (suc n) (suc i) = replicate-empty_node n i

volume-node_banks : (slot : ℕ) → node_bank volume slot ≤ 1
volume-node_banks zero = omega arith
volume-node_banks (suc zero) = omega arith
volume-node_banks (suc (suc zero)) = omega arith
volume-node_banks (suc (suc (suc zero))) = omega arith
volume-node_banks (suc (suc (suc (suc zero)))) = omega arith
volume-node_banks (suc (suc (suc (suc (suc k))))) =
    omega (arith, ap (λ (n : Node). n.bank) (replicate-empty_node 27 k))

volume-IsValid : IsValid volume
volume-IsValid = record { slots = refl; volume_bank = omega arith; node_banks = volume-node_banks }

abbrev rewritten : Node
rewritten = replaced notes notes (1 ∷ 2 ∷ []) 3

abbrev next_metadata : Metadata
next_metadata = record {
  sequence = 3;
  next = 6;
  nodes = set one_file.nodes 4 rewritten;
  recovery = none;
}

abbrev prepared : Publication Memory Node
prepared = new volume blank next_metadata (data_sector 4 1) (1 ∷ 2 ∷ []) rewritten

prepare_notes : prepare_recorded volume blank 5 2 (1 ∷ 2 ∷ []) one_file (λ n. n) ≡ ok prepared
unfolding prepare_recorded writable stat located is_ready position_from
prepare_notes = refl

abbrev got : {A : Type 0} → Option A → A → A
got none a = a
got (some a) b = a

-- Two writes, then a cancellation.
abbrev cut_short : List Call
cut_short = cancels ∷ advances ∷ polls ∷ []

abbrev after_cut : Publication Memory Node
after_cut = got (calls in_memory cut_short prepared) prepared

calls-cut_short :
    (calls in_memory cut_short prepared ≡ some after_cut) × (after_cut.phase ≡ Phase.cancelled)
unfolding calls call poll_advance new advance poll execute write_steps cancel
calls-cut_short = (refl, refl)

-- Three steps for the payload and seven for the metadata.
abbrev to_the_end : List Call
to_the_end = replicate 10 advances

abbrev after_all : Publication Memory Node
after_all = got (calls in_memory to_the_end prepared) prepared

calls-to_the_end :
    (calls in_memory to_the_end prepared ≡ some after_all) × (after_all.phase ≡ Phase.committed)
unfolding calls call poll_advance new advance poll execute write_steps command
calls-to_the_end = (refl, refl)

after_all-open : after_all.volume.poisoned ≡ false
unfolding calls call poll_advance new advance poll execute write_steps command
after_all-open = refl

prepared-next : prepared.next ≡ some next_metadata
unfolding new
prepared-next = refl

IsLive-stays_example :
    (q : Publication Memory Node) × (calls in_memory cut_short prepared ≡ some q)
    × ((s : ℕ) → IsLive volume s → q.disk s ≡ blank s)
IsLive-stays_example =
    IsLive-stays in_memory volume blank 5 2 (1 ∷ 2 ∷ []) one_file (λ n. n) prepared cut_short
      volume-IsValid prepare_notes

fenced_until_settled_example :
    (after_all.phase ≡ Phase.committed) ⊎ (after_all.phase ≡ Phase.cancelled)
fenced_until_settled_example =
    fenced_until_settled in_memory volume blank 5 2 (1 ∷ 2 ∷ []) one_file (λ n. n) prepared
      after_all to_the_end volume-IsValid prepare_notes calls-to_the_end.0 after_all-open

cancelled_unpublished_example :
    (after_cut.volume ≡ volume) × (after_cut.disk (header 1) ≡ blank (header 1))
cancelled_unpublished_example =
    cancelled_unpublished in_memory volume blank 5 2 (1 ∷ 2 ∷ []) one_file (λ n. n) prepared
      after_cut cut_short volume-IsValid prepare_notes calls-cut_short.0 calls-cut_short.1

committed-IsPublished_example : IsPublished (λ d s. d s) volume next_metadata (1 ∷ 2 ∷ []) after_all
committed-IsPublished_example =
    committed-IsPublished in_memory volume blank 5 2 (1 ∷ 2 ∷ []) one_file next_metadata (λ n. n)
      prepared after_all to_the_end volume-IsValid prepare_notes prepared-next calls-to_the_end.0
      calls-to_the_end.1

in_memory-never_fails : (c : Command) (d : Memory) → (execute in_memory c d).1 ≡ ok tt
unfolding execute
in_memory-never_fails (write s bytes) d = refl
in_memory-never_fails flush d = refl

advances_commit_example :
    (q : Publication Memory Node) × (calls in_memory
        (replicate (3 + write_steps next_metadata) advances)
        prepared
      ≡ some q)
    × (q.phase ≡ Phase.committed)
advances_commit_example =
    advances_commit in_memory in_memory-never_fails volume blank 5 2 (1 ∷ 2 ∷ []) one_file
      next_metadata (λ n. n) prepared volume-IsValid prepare_notes prepared-next
