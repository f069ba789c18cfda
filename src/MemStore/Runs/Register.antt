-- ===== src/MemStore/Runs/Register.antt =====
-- What the store keeps of one run depends on the calls on that run alone.
use tempest.Base.{
  ℕ, String, ◌≡◌, refl, sym, ap, ◌∙◌, subst, ◌⊎◌, inl, inr, false, Option, none, some, List, [],
  ◌∷◌, arith, if◌then◌else◌, Bool-cases, Option-cases, set, All, int_eq, ◌=?◌, string_eq, nat_eq,
  =?_eq,
}
use tempest.Base.GoMap.{lookup, insert, lookup-insert, lookup-insert_ne}
use mathlib.Core.Option
use tempest.Types.{
  RunState, pending, queued, running, succeeded, failed, cancelled, timed_out, is_terminal,
  run_state_eq,
}
use tempest.Types.Records.{StepRun, Run}
use tempest.MemStore.{Store, Error}
use tempest.MemStore.Keys.{run_key}
use tempest.MemStore.Runs.{
  stamped, put_step, create_run, get_run, update_run_state, update_run_error, update_step_state,
}
use tempest.MemStore.Runs.Single.{
  Call, creates, sets_state, sets_error, sets_step, space_of, id_of, new_start, new_end, place_of,
  write, register_run, answer,
}
use tempest.Base.Text.{has_char}
use tempest.MemStore.Keys.Slashes.{key_test}

module _ {Any : Type 0} where
  abbrev pub key_of : Call Any → String
  key_of c = run_key (space_of c) (id_of c)

  stamped-write :
      (r : Run Any) (to : RunState) (at : ℕ)
      → stamped (record r { state = to }) to at ≡ record r {
        state = to;
        started_at = new_start r.started_at to at;
        finished_at = new_end r.started_at r.finished_at to at;
      }
  unfolding stamped is_terminal
  stamped-write r to at = elim (Option-cases r.started_at) [
    | inl unset ↦ fresh r to at unset
    | inr (t, is_set) ↦ old r to at t is_set
  ]
    where
      fresh :
          (r : Run Any) (to : RunState) (at : ℕ)
          → r.started_at ≡ none
          → stamped (record r { state = to }) to at ≡ record r {
            state = to;
            started_at = new_start r.started_at to at;
            finished_at = new_end r.started_at r.finished_at to at;
          }
      fresh r pending at e = simp (e)
      fresh r queued at e = simp (e)
      fresh r running at e = simp (e)
      fresh r succeeded at e = simp (e)
      fresh r failed at e = simp (e)
      fresh r cancelled at e = simp (e)
      fresh r timed_out at e = simp (e)

      old :
          (r : Run Any) (to : RunState) (at t : ℕ)
          → r.started_at ≡ some t
          → stamped (record r { state = to }) to at ≡ record r {
            state = to;
            started_at = new_start r.started_at to at;
            finished_at = new_end r.started_at r.finished_at to at;
          }
      old r pending at t e = simp (e)
      old r queued at t e = simp (e)
      old r running at t e = simp (e)
      old r succeeded at t e = simp (e)
      old r failed at t e = simp (e)
      old r cancelled at t e = simp (e)
      old r timed_out at t e = simp (e)

  put_step-place :
      (steps : List (StepRun Any)) (step : StepRun Any)
      → put_step steps step ≡ Option.map (λ i. set steps i step) (place_of step.step_id steps)
  unfolding put_step place_of
  put_step-place [] step = refl
  put_step-place (s ∷ rest) step = elim (Bool-cases (s.step_id =? step.step_id)) [
    | inl same ↦ rw same refl
    | inr other ↦
        rw (other, put_step-place rest step)
          (elim (Option-cases (place_of step.step_id rest)) [
            | inl none_of ↦ rw none_of refl
            | inr (i, at) ↦ rw at refl
          ])
  ]

module _ {Any Float : Type 0} where
  unfoldable pub step : Store Any Float → Call Any → Store Any Float
  step s (creates r) = (create_run s r).1
  step s (sets_state namespace id to at) = (update_run_state s namespace id to at).1
  step s (sets_error namespace id message) = (update_run_error s namespace id message).1
  step s (sets_step namespace id changed) = (update_step_state s namespace id changed).1

  unfoldable pub run : Store Any Float → List (Call Any) → Store Any Float
  unfolding step
  run s [] = s
  run s (c ∷ cs) = run (step s c) cs

  -- The runs after a call: written at its key, or left.
  step-write :
      (s : Store Any Float) (c : Call Any)
      → ((write (lookup s.runs (key_of c)) c ≡ lookup s.runs (key_of c)) × (step s c ≡ s))
        ⊎ ((r : Run Any) × (write (lookup s.runs (key_of c)) c ≡ some r)
            × ((step s c).runs ≡ insert s.runs (key_of c) r))
  unfolding step write create_run update_run_state update_run_error update_step_state
  step-write s (creates r) = elim (Option-cases (lookup s.runs (run_key r.namespace r.id))) [
    | inl miss ↦ inr (r, ground (arith, miss), ground (arith, miss))
    | inr (old, found) ↦ inl (ground (arith, found), ground (arith, found))
  ]
  step-write s (sets_state ns id to at) = elim (Option-cases (lookup s.runs (run_key ns id))) [
    | inl miss ↦ inl (ground (arith, miss), ground (arith, miss))
    | inr (old, found) ↦ inr (
      stamped (record old { state = to }) to at,
      ap (λ r. write r (sets_state ns id to at)) found ∙ ap some (sym (stamped-write old to at)),
      ground (arith, found),
    )
  ]
  step-write s (sets_error ns id message) = elim (Option-cases (lookup s.runs (run_key ns id))) [
    | inl miss ↦ inl (ground (arith, miss), ground (arith, miss))
    | inr (old, found) ↦
        let new_run : Run Any = record old { error = message } in
        inr (new_run, ground (arith, found), ground (arith, found))
  ]
  step-write s (sets_step ns id changed) = elim (Option-cases (lookup s.runs (run_key ns id))) [
    | inl miss ↦ inl (ground (arith, miss), ground (arith, miss))
    | inr (old, found) ↦ elim (Option-cases (place_of changed.step_id old.steps)) [
      | inl absent ↦
          let missed : put_step old.steps changed ≡ none =
            put_step-place old.steps changed
            ∙ ap (Option.map (λ i. set old.steps i changed)) absent in
          inl (rw (found, absent, write) refl, ground (arith, found, missed))
      | inr (i, at) ↦
          let placed : put_step old.steps changed ≡ some (set old.steps i changed) =
            put_step-place old.steps changed ∙ ap (Option.map (λ i. set old.steps i changed)) at in
          let new_run : Run Any = record old { steps = set old.steps i changed } in
          inr (new_run, rw (found, at, write) refl, ground (arith, found, placed))
    ]
  ]

  step-lookup :
      (s : Store Any Float) (c : Call Any) (j : String)
      → lookup (step s c).runs j
        ≡ (if key_of c =? j then write (lookup s.runs j) c else lookup s.runs j)
  step-lookup s c j = elim (Bool-cases (key_of c =? j)) [
    | inl same ↦
        let here : key_of c ≡ j = =?_eq (key_of c) j same in
        elim (step-write s c) [
          | inl (kept, e) ↦ rw same (
              ap (λ (x : Store Any Float). lookup x.runs j) e
              ∙ sym (subst (λ k. write (lookup s.runs k) c ≡ lookup s.runs k) here kept))
          | inr (r, made, e) ↦ rw same (
              ap (λ m. lookup m j) e
              ∙ lookup-insert s.runs (key_of c) j r
              ∙ rw same refl
              ∙ sym (subst (λ k. write (lookup s.runs k) c ≡ some r) here made))
        ]
    | inr other ↦ elim (step-write s c) [
      | inl (kept, e) ↦ rw other (ap (λ (x : Store Any Float). lookup x.runs j) e)
      | inr (r, made, e) ↦
          rw other (ap (λ m. lookup m j) e ∙ lookup-insert_ne s.runs (key_of c) j r other)
    ]
  ]

  run-lookup :
      (s : Store Any Float) (cs : List (Call Any)) (namespace id : String)
      → has_char "/" namespace ≡ false
      → All (λ c. has_char "/" (space_of c) ≡ false) cs
      → lookup (run s cs).runs (run_key namespace id)
        ≡ register_run namespace id (lookup s.runs (run_key namespace id)) cs
  unfolding run register_run
  run-lookup s [] namespace id free frees = refl
  run-lookup s (c ∷ cs) namespace id free (free_c, frees) =
      run-lookup (step s c) cs namespace id free frees
      ∙ ap (λ r. register_run namespace id r cs)
          (step-lookup s c (run_key namespace id)
            ∙ ap
                (λ b.
                  if b
                  then write (lookup s.runs (run_key namespace id)) c
                  else lookup s.runs (run_key namespace id))
                (sym (key_test (space_of c) (id_of c) namespace id free_c free)))

  get_run-answer :
      (s : Store Any Float) (namespace id : String)
      → get_run s namespace id ≡ answer (lookup s.runs (run_key namespace id))
  unfolding get_run
  get_run-answer s namespace id = elim (Option-cases (lookup s.runs (run_key namespace id))) [
    | inl miss ↦ ground (arith, miss)
    | inr (r, found) ↦ ground (arith, found)
  ]

  -- After any creations and updates of runs, `GetRun` answers what a single run would be that is
  -- written by the calls with its namespace and ID alone, where the namespaces have no slash: the
  -- first creation makes it, a later one changes nothing, a new state sets its start and its end,
  -- its error and its first step of an ID are replaced, and what is done to other runs does not
  -- matter. Where it was not there before and is never created, the answer is an error.
  pub store_refines_run :
      (s : Store Any Float) (cs : List (Call Any)) (namespace id : String) (r : Option (Run Any))
      → has_char "/" namespace ≡ false
      → All (λ c. has_char "/" (space_of c) ≡ false) cs
      → get_run s namespace id ≡ answer r
      → get_run (run s cs) namespace id ≡ answer (register_run namespace id r cs)
  store_refines_run s cs namespace id r free frees before =
      let stored : lookup s.runs (run_key namespace id) ≡ r =
        answer-inj (lookup s.runs (run_key namespace id)) r
          (sym (get_run-answer s namespace id) ∙ before) in
      get_run-answer (run s cs) namespace id
      ∙ ap answer (run-lookup s cs namespace id free frees)
      ∙ ap (λ o. answer (register_run namespace id o cs)) stored
    where
      found_run : Error ⊎ Run Any → Option (Run Any)
      found_run (inl e) = none
      found_run (inr x) = some x

      answer-inj : (a b : Option (Run Any)) → answer a ≡ answer b → a ≡ b
      answer-inj none none e = refl
      answer-inj none (some y) e = ap found_run e
      answer-inj (some x) none e = ap found_run e
      answer-inj (some x) (some y) e = ap found_run e
