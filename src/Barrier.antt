-- ===== src/Barrier.antt =====
-- internal/barrier/barrier.go: parties that wait for each other. `ArriveAndWait` is taken apart
-- where it gives up the lock: `arrive` is what is done before it waits, `wake` one look at the
-- loop's condition with what follows when it is over, `cancel` what the goroutine does when the
-- context ends. Between them other calls may come.
pub mod Calls
pub mod Count
pub mod Release
use tempest.Base.{
  ℕ, suc, ◌+◌, String, ◌⊎◌, inl, inr, Bool, true, false, not, ◌&&◌, Option, none, some, List, [],
  leb, ◌==◌, if◌then◌else◌, length, ℤ, pos, int_eq, u64, string_eq, nat_eq,
}
use tempest.Base.GoMap.{lookup, insert, erase}

-- `from_caller` is an error of a context or one that was given to `Break`.
pub data Error : Type 0 where
  barrier_broken already_arrived invalid_threshold : Error
  from_caller : String → Error

pub record Barrier : Type 0 where
  pub threshold : ℕ
  pub arrived : List (String × ℕ)
  pub generation : ℕ
  pub broken : Bool
  pub broken_err : Option Error

unfoldable pub new : ℤ → Error ⊎ Barrier
new (pos (suc n)) =
    inr (record {
      threshold = suc n;
      arrived = [];
      generation = 0;
      broken = false;
      broken_err = none;
    })
new _ = inl invalid_threshold

-- How `ArriveAndWait` goes on: it returns an error, or it was the last one, or it waits for the
-- end of a generation.
pub data Arrival : Type 0 where
  refused : Option Error → Arrival
  last : Arrival
  waits : ℕ → Arrival

unfoldable pub arrive : Barrier → String → ℕ → Arrival × Barrier
arrive b party_id now =
    if b.broken then (refused b.broken_err, b) else elim (lookup b.arrived party_id) [
      | some t ↦ (refused (some already_arrived), b)
      | none ↦
          let arrived = insert b.arrived party_id now in
          if leb b.threshold (length arrived)
          then (last, record b { generation = u64 (b.generation + 1); arrived = [] })
          else (waits b.generation, record b { arrived = arrived })
    ]

-- The error that a party returns with which waited for `gen`, if it waits no longer.
unfoldable pub wake : Barrier → ℕ → Option (Option Error)
wake b gen =
    if (gen == b.generation) && not b.broken
    then none
    else if b.broken
    then some b.broken_err
    else some none

unfoldable pub break_locked : Barrier → Option Error → Barrier
break_locked b err = if b.broken then b else record b {
  broken = true;
  broken_err = some (elim err [ none ↦ barrier_broken | some e ↦ e ]);
}

unfoldable pub cancel : Barrier → ℕ → Error → Barrier
unfolding break_locked
cancel b gen err = if (gen == b.generation) && not b.broken then break_locked b (some err) else b

unfoldable pub reset : Barrier → Barrier
reset b = record b {
  broken = false;
  broken_err = none;
  generation = u64 (b.generation + 1);
  arrived = [];
}

abbrev pub arrived_count : Barrier → ℕ
arrived_count b = length b.arrived

-- `Coordinator.GetOrCreate`
unfoldable pub get_or_create :
    List (String × Barrier) → String → ℤ → (Error ⊎ Barrier) × List (String × Barrier)
unfolding new
get_or_create barriers name threshold = elim (lookup barriers name) [
  | some b ↦ (inr b, barriers)
  | none ↦ elim (new threshold) [
    | inl e ↦ (inl e, barriers)
    | inr b ↦ (inr b, insert barriers name b)
  ]
]

-- `Coordinator.Remove`: the barrier as those who hold it find it, and the others.
unfoldable pub remove : List (String × Barrier) → String → Option Barrier × List (String × Barrier)
unfolding break_locked
remove barriers name = elim (lookup barriers name) [
  | none ↦ (none, barriers)
  | some b ↦ (some (break_locked b (some barrier_broken)), erase barriers name)
]
