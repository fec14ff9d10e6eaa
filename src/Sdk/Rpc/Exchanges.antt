-- ===== src/Sdk/Rpc/Exchanges.antt =====
-- crates/sdk/src/rpc/state.rs: which exchanges a run of calls completes.
use rustic_os.Base.{
  ℕ, ◌+◌, ◌≤◌, ◌<◌, ◌≡◌, sym, ap, inl, inr, arith, true, not, ◌||◌, Option, none, some, List, [],
  ◌∷◌, if◌then◌else◌, Bool-cases,
}
use rustic_os.Sdk.Rpc.{State, default, ticket, sent, accept, fail, holds}

-- A call that changes the state.
pub data Call : Type 0 where
  sends accepts : ℕ → Call
  fails : Call

-- The state and the tickets whose response was accepted, the last first.
pub record Run : Type 0 where
  pub state : State
  pub done : List ℕ

unfoldable pub call : Call → Run → Run
call (sends n) r = record r { state = (sent r.state n).0 }
call (accepts n) r = record {
  state = (accept r.state n).0;
  done = if (accept r.state n).1 then n ∷ r.done else r.done;
}
call fails r = record r { state = fail r.state }

-- The calls of the list, its last element first, on an endpoint just opened.
unfoldable pub run : List Call → Run
run [] = record { state = default; done = [] }
run (c ∷ earlier) = call c (run earlier)

-- Every ticket is below the one before it in the list.
abbrev pub Descending : ℕ → List ℕ → Type 0
Descending bound [] = Unit {0}
Descending bound (n ∷ rest) = (n < bound) × Descending n rest

Descending-weaken : (a b : ℕ) (xs : List ℕ) → Descending a xs → a ≤ b → Descending b xs
Descending-weaken a b [] h l = tt
Descending-weaken a b (n ∷ rest) h l = (omega (arith, h.0), h.1)

-- The tickets accepted lie below the one in flight, which is the last that was sent.
pub record IsValid (r : Run) : Type 0 where
  pub below : Descending (r.state.next + 1) r.done
  pub in_flight : (n : ℕ) → r.state.active ≡ some n → (n ≡ r.state.next) × Descending n r.done

ticket-next : (s : State) (n : ℕ) → ticket s ≡ some n → n ≡ s.next + 1
unfolding ticket
ticket-next s n h = ground arith

holds-some : (o : Option ℕ) (n : ℕ) → holds o n ≡ true → o ≡ some n
holds-some none n h = ground arith
holds-some (some m) n h = let same : m ≡ n = ground arith in ap some same

sent-IsValid : (r : Run) (n : ℕ) → IsValid r → IsValid (record r { state = (sent r.state n).0 })
unfolding sent
sent-IsValid r n v = elim (Bool-cases (holds (ticket r.state) n)) [
  | inr wrong ↦ rw wrong (record { below = v.below; in_flight = v.in_flight })
  | inl right ↦
      let more : n ≡ r.state.next + 1 =
        ticket-next r.state n (holds-some (ticket r.state) n right) in
      rw right (record {
        below = Descending-weaken (r.state.next + 1) (n + 1) r.done v.below (omega arith);
        in_flight = λ k e.
            let same : n ≡ k = ground arith in
            (sym same, Descending-weaken (r.state.next + 1) k r.done v.below (omega arith));
      })
]

fail-IsValid : (r : Run) → IsValid r → IsValid (record r { state = fail r.state })
unfolding fail
fail-IsValid r v = record { below = v.below; in_flight = λ n e. absurd (ground arith) }

accept-IsValid : (r : Run) (n : ℕ) → IsValid r → IsValid (call (accepts n) r)
unfolding call accept fail
accept-IsValid r n v = elim (Bool-cases (r.state.failed || not (holds r.state.active n))) [
  | inl refused ↦ rw refused (record { below = v.below; in_flight = λ k e. absurd (ground arith) })
  | inr taken ↦
      let active : r.state.active ≡ some n = holds-some r.state.active n (ground arith) in
      let (last, under) = v.in_flight n active in
      rw taken (record { below = (omega arith, under); in_flight = λ k e. absurd (ground arith) })
]

run-IsValid : (cs : List Call) → IsValid (run cs)
unfolding run default call
run-IsValid [] = record { below = tt; in_flight = λ n e. absurd (ground arith) }
run-IsValid (sends n ∷ earlier) = sent-IsValid (run earlier) n (run-IsValid earlier)
run-IsValid (accepts n ∷ earlier) = accept-IsValid (run earlier) n (run-IsValid earlier)
run-IsValid (fails ∷ earlier) = fail-IsValid (run earlier) (run-IsValid earlier)

-- After any calls on an endpoint just opened, the tickets whose response was accepted ascend strictly
-- and reach at most the last ticket sent, so no exchange completes twice.
pub accepted_once : (cs : List Call) → Descending ((run cs).state.next + 1) (run cs).done
accepted_once cs = (run-IsValid cs).below
