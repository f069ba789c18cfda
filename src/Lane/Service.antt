-- ===== src/Lane/Service.antt =====
-- `ScheduleNext` serves a task after a bounded number of rounds.
use tempest.Base.{
  ℤ, pos, ◌^◌, ℕ, zero, suc, ◌+◌, ◌*◌, ◌≤◌, ◌<◌, ◌≡◌, refl, sym, ap, ◌∙◌, subst, ◌≢◌, ◌⊎◌, inl, inr,
  false, Option, none, some, List, [], ◌∷◌, arith, ◌==◌, Bool-cases, Option-cases, length,
  get_elem?, ◌=?◌, string_eq, nat_eq, =?_eq,
}
use mathlib.Core.Option.{some_inj}
use tempest.Lane.{Task, Lane}
use tempest.Lane.Drr.{
  DrrScheduler, covers, starved, credited, attempt, attempts, schedule_round, schedule_next,
}
use tempest.Lane.Dispatch.{passed, Outcome, round-Outcome}
use tempest.Lane.Turn.{turns, Waits, left_over, attempt_turn, other_turn, get_below, get_bound}
use tempest.Lane.OwnTurn.{own_turn}

-- Lane `j` still waits, and for less.
abbrev IsCloser : DrrScheduler → DrrScheduler → ℕ → ℕ → Task → Type 0
IsCloser s s' j gap t = (gap' : ℕ) × Waits s' j gap' t × (left_over s' j gap' < left_over s j gap)

same_head :
    (s : DrrScheduler) (m : Lane) (j gap : ℕ) (t : Task)
    → get_elem? s.lanes s.round_index ≡ some m
    → s.round_index ≡ j
    → (w : Waits s j gap t) → m.tasks ≡ t ∷ w.rest
same_head s m j gap t here e w =
    let same : w.lane ≡ m = some_inj.0 (sym w.found ∙ ap (get_elem? s.lanes) (sym e) ∙ here) in
    ap (λ (x : Lane). x.tasks) (sym same) ∙ w.full

-- An attempt serves some task, or brings every waiting lane closer to its own.
progress :
    (s : DrrScheduler) (j gap : ℕ) (t : Task)
    → Waits s j gap t
    → ((u : Task) × ((attempt s).0 ≡ some u))
      ⊎ (((attempt s).0 ≡ none) × IsCloser s (attempt s).1 j gap t)
progress s j gap t w =
    let (m, here) = get_below s.lanes s.round_index w.in_range in
    elim (attempt_turn s m here) [
      | inl (empty, e) ↦
          let off : s.round_index ≢ j =
            λ at. nonempty t w.rest (sym (same_head s m j gap t here at w) ∙ empty) in
          let (still, less) = other_turn s m (pos 0) j gap t off w in
          inr (fails s m (pos 0) j gap t e (gap, still, less))
      | inr (u, rest, full, case) ↦ elim case [
        | inl (short, e) ↦ elim (Bool-cases (s.round_index =? j)) [
          | inl at ↦
              let here_j : s.round_index ≡ j = =?_eq s.round_index j at in
              let cost : u.cost ≡ t.cost =
                head_cost u t rest w.rest (sym full ∙ same_head s m j gap t here here_j w) in
              let short_t : covers (credited s m) t.cost ≡ false =
                ap (covers (credited s m)) (sym cost) ∙ short in
              let closer : Waits s j gap t → IsCloser s (passed s m (credited s m)) j gap t =
                subst (λ k. Waits s k gap t → IsCloser s (passed s m (credited s m)) k gap t) here_j
                  (own_turn s m gap t here short_t) in
              inr (fails s m (credited s m) j gap t e (closer w))
          | inr off ↦
              let apart : s.round_index ≢ j = ground (arith, off) in
              let (still, less) = other_turn s m (credited s m) j gap t apart w in
              inr (fails s m (credited s m) j gap t e (gap, still, less))
        ]
        | inr e ↦ inl (u, ap (λ r. r.0) e)
      ]
    ]
  where
    fails :
        (s : DrrScheduler) (m : Lane) (d : ℤ) (j gap : ℕ) (t : Task)
        → attempt s ≡ (none, passed s m d)
        → IsCloser s (passed s m d) j gap t
        → ((attempt s).0 ≡ none) × IsCloser s (attempt s).1 j gap t
    fails s m d j gap t e closer =
        (ap (λ r. r.0) e, subst (λ s'. IsCloser s s' j gap t) (sym (ap (λ r. r.1) e)) closer)

    nonempty : (t : Task) (rest : List Task) → t ∷ rest ≡ [] → ⊥
    nonempty t rest e = ground (arith, e)

    head_cost : (u t : Task) (us ts : List Task) → u ∷ us ≡ t ∷ ts → u.cost ≡ t.cost
    head_cost u t us ts e = ground (arith, e)

-- A second loop of `n` attempts.
attempts_progress :
    (s : DrrScheduler) (n j gap : ℕ) (t : Task)
    → Waits s j gap t
    → ((u : Task) × ((attempts s n).0 ≡ some u))
      ⊎ (((attempts s n).0 ≡ none)
          × (gap' : ℕ) × Waits (attempts s n).1 j gap' t
          × (left_over (attempts s n).1 j gap' + n ≤ left_over s j gap))
unfolding attempts
attempts_progress s zero j gap t w = inr (refl, gap, w, omega arith)
attempts_progress s (suc n) j gap t w = elim (progress s j gap t w) [
  | inl (u, e) ↦
      let stop : attempts s (suc n) ≡ attempt s = rw (e, attempts) refl in
      inl (u, ap (λ r. r.0) stop ∙ e)
  | inr (e, (gap', w', less)) ↦
      let on : attempts s (suc n) ≡ attempts (attempt s).1 n = rw (e, attempts) refl in
      elim (attempts_progress (attempt s).1 n j gap' t w') [
        | inl (u, f) ↦ inl (u, ap (λ r. r.0) on ∙ f)
        | inr (f, gap'', w'', less') ↦ inr (
          ap (λ r. r.0) on ∙ f,
          gap'',
          subst (λ r. Waits r.1 j gap'' t) (sym on) w'',
          subst (λ r. left_over r.1 j gap'' + suc n ≤ left_over s j gap) (sym on)
              (omega (arith, less, less')),
        )
      ]
]

round_progress :
    (s : DrrScheduler) (now j gap : ℕ) (t : Task)
    → Waits s j gap t
    → 0 < s.total_tasks
    → ((u : Task) × ((schedule_round s now).0 ≡ some u))
      ⊎ (((schedule_round s now).0 ≡ none) × IsCloser s (schedule_round s now).1 j gap t)
unfolding schedule_round
round_progress s now j gap t w some_task = elim (Option-cases (starved s.lanes now)) [
  | inl fed ↦
      let busy : (s.total_tasks == 0) ≡ false = ground (arith, some_task) in
      let on : schedule_round s now ≡ attempts s (length s.lanes * 2) = ground (arith, busy, fed) in
      elim (attempts_progress s (length s.lanes * 2) j gap t w) [
        | inl (u, e) ↦ inl (u, ap (λ r. r.0) on ∙ e)
        | inr (e, gap', w', less) ↦
            let closer : IsCloser s (attempts s (length s.lanes * 2)).1 j gap t =
              (gap', w', omega (arith, less, w.in_range)) in
            inr (ap (λ r. r.0) on ∙ e, subst (λ r. IsCloser s r.1 j gap t) (sym on) closer)
      ]
  | inr (p, found) ↦
      let busy : (s.total_tasks == 0) ≡ false = ground (arith, some_task) in
      inl (p.0, ground (arith, busy, found))
]

rounds_serve :
    (s : DrrScheduler) (times : List ℕ) (j gap : ℕ) (t : Task)
    → Waits s j gap t
    → 0 < s.total_tasks
    → left_over s j gap < length times
    → (u : Task) × ((schedule_next s times).0 ≡ some u)
unfolding schedule_next
rounds_serve s [] j gap t w some_task h = absurd (omega (arith, h))
rounds_serve s (now ∷ later) j gap t w some_task h =
    elim (round_progress s now j gap t w some_task) [
      | inl (u, e) ↦
          let stop : schedule_next s (now ∷ later) ≡ schedule_round s now =
            rw (e, schedule_next) refl in
          (u, ap (λ r. r.0) stop ∙ e)
      | inr (e, (gap', w', less)) ↦
          let on : schedule_next s (now ∷ later) ≡ schedule_next (schedule_round s now).1 later =
            rw (e, schedule_next) refl in
          let count : 0 < (schedule_round s now).1.total_tasks =
            still_some s (schedule_round s now) e (round-Outcome s now) some_task in
          let (u, f) =
            rounds_serve (schedule_round s now).1 later j gap' t w' count
              (omega (arith, h, less)) in
          (u, ap (λ r. r.0) on ∙ f)
    ]
  where
    still_some :
        (s : DrrScheduler) (r : Option Task × DrrScheduler)
        → r.0 ≡ none
        → Outcome s r
        → 0 < s.total_tasks
        → 0 < r.1.total_tasks
    still_some s r e (inl (f, q, c)) h = omega (arith, c, h)
    still_some s r e (inr (t, f, taken, c)) h = ground (arith, e, f)

left_over_bound :
    (s : DrrScheduler) (j gap : ℕ)
    → s.round_index < length s.lanes
    → j < length s.lanes
    → left_over s j gap < turns (gap + 2) (length s.lanes)
unfolding turns
left_over_bound s j gap h k =
    let twice : gap + 2 ≡ suc (suc gap) = omega arith in
    let two : turns (gap + 2) (length s.lanes)
        ≡ length s.lanes + (length s.lanes + turns gap (length s.lanes)) =
      ap (λ n. turns n (length s.lanes)) twice in
    ground (arith, two, h, k)

-- `ScheduleNext` does not go round for ever: when the scheduler counts a task, its turn is at one of
-- its lanes, and a lane with a positive quantum has the task `t` at its head, then a task is served
-- within (cost of `t` + 2) times as many rounds as there are lanes, whatever the times are, where
-- the lane's deficit is not negative, the deficit and the quantum add up to less than 2 ^ 63, and
-- the cost of `t` and the quantum to at most 2 ^ 63. The deficits of other lanes may wrap.
pub schedule_next_serves :
    (s : DrrScheduler) (times : List ℕ) (j d : ℕ) (l : Lane) (t : Task) (rest : List Task)
    → get_elem? s.lanes j ≡ some l
    → l.tasks ≡ t ∷ rest
    → 0 < l.quantum
    → l.deficit ≡ pos d
    → d + l.quantum < 2 ^ 63
    → t.cost + l.quantum ≤ 2 ^ 63
    → s.round_index < length s.lanes
    → 0 < s.total_tasks
    → turns (t.cost + 2) (length s.lanes) ≤ length times
    → (u : Task) × ((schedule_next s times).0 ≡ some u)
schedule_next_serves s times j d l t rest found full earns deficit_is fits cost_fits turn some_task
      enough =
    let w : Waits s j t.cost t = record {
      lane = l;
      rest = rest;
      found = found;
      full = full;
      earns = earns;
      credit = d;
      deficit_is = deficit_is;
      fits = fits;
      cost_fits = cost_fits;
      lacks = omega arith;
      in_range = turn;
    } in
    let bound = left_over_bound s j t.cost turn (get_bound s.lanes j l found) in
    rounds_serve s times j t.cost t w some_task (omega (arith, bound, enough))
