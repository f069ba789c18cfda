-- ===== src/MemStore/Runs/Finish.antt =====
-- The times that a run carries when it ends.
use tempest.Base.{
  ℕ, String, ◌≡◌, refl, ap, ◌∙◌, ◌⊎◌, inl, inr, true, false, none, some, arith, Option-cases,
  string_eq, nat_eq,
}
use tempest.Base.GoMap.{lookup, lookup-insert_self}
use tempest.Types.{RunState, succeeded, failed, is_terminal, run_state_eq}
use tempest.Types.Records.{Run}
use tempest.MemStore.{Store}
use tempest.MemStore.Keys.{run_key}
use tempest.MemStore.Runs.{stamped, is_expired, get_run, update_run_state}

stamped_unstarted :
    {Any : Type 0} (r : Run Any) (to : RunState) (at : ℕ)
    → r.started_at ≡ none
    → (to ≡ succeeded) ⊎ (to ≡ failed)
    → stamped (record r { state = to }) to at ≡ record r { state = to; started_at = some at }
unfolding stamped
stamped_unstarted r to at fresh (inl e) =
    ground (arith, fresh, (run_state_eq.beq_iff to succeeded).1 e)
stamped_unstarted r to at fresh (inr e) =
    ground (arith, fresh, (run_state_eq.beq_iff to failed).1 e)

module _ {Any Float : Type 0} where
  -- When a stored run with neither a start nor an end succeeds or fails, it gets the time as its
  -- start and none as its end. So it has ended, and as it then is no cutoff makes it expired.
  pub unstarted_never_expires :
      (s : Store Any Float) (namespace id : String) (r : Run Any) (to : RunState) (at cutoff : ℕ)
      → get_run s namespace id ≡ inr r
      → r.started_at ≡ none
      → r.finished_at ≡ none
      → (to ≡ succeeded) ⊎ (to ≡ failed)
      → (ended : Run Any) × (get_run (update_run_state s namespace id to at).1 namespace id
          ≡ inr ended)
        × (ended.state ≡ to)
        × (is_terminal ended.state ≡ true)
        × (ended.started_at ≡ some at)
        × (ended.finished_at ≡ none)
        × (is_expired cutoff ended ≡ false)
  unfolding get_run update_run_state is_expired is_terminal
  unstarted_never_expires s namespace id r to at cutoff h fresh open_end ends =
      let ended : Run Any = record r { state = to; started_at = some at } in
      elim (Option-cases (lookup s.runs (run_key namespace id))) [
        | inl miss ↦ absurd (ground (arith, miss, h))
        | inr (old, found) ↦
            let same : old ≡ r = ground (arith, found, h) in
            let stamp : stamped (record old { state = to }) to at ≡ ended =
              ap (λ (x : Run Any). stamped (record x { state = to }) to at) same
              ∙ stamped_unstarted r to at fresh ends in
            (
              ended,
              ground (
                arith,
                found,
                stamp,
                lookup-insert_self s.runs (run_key namespace id)
                    (stamped (record old { state = to }) to at),
              ),
              refl,
              ground (arith, ends),
              refl,
              open_end,
              ground (arith, open_end),
            )
      ]
