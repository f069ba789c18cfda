-- ===== src/Lane/OwnTurn.antt =====
-- What an attempt at a lane does for it when it cannot serve its head.
use tempest.Base.{
  ℤ, pos, ◌^◌, lt→ltb, false, nat_eq, ℕ, suc, ◌+◌, ◌-◌, ◌%◌, ◌≤◌, ◌<◌, ◌≡◌, refl, sym, ap, ◌∙◌,
  subst, inl, inr, some, arith, leb, ◌==◌, if◌then◌else◌, Bool-cases, length, get_elem?, set,
  length-set, string_eq, nat_eq,
}
use mathlib.Core.Option.{some_inj}
use tempest.Lane.{Task, Lane}
use tempest.Lane.Drr.{DrrScheduler, covers, add_int, credited}
use tempest.Lane.Dispatch.{passed}
use tempest.Lane.Turn.{turns, get_set_self, Waits, left_over, next_index}

-- After a turn of lane `j` that served nothing, it waits with the credit that it then has.
own_turn-Waits :
    (s : DrrScheduler) (m : Lane) (gap gap' c : ℕ) (t : Task)
    → get_elem? s.lanes s.round_index ≡ some m
    → Waits s s.round_index gap t
    → credited s m ≡ pos c
    → c < t.cost
    → t.cost ≤ c + gap'
    → Waits (passed s m (credited s m)) s.round_index gap' t
own_turn-Waits s m gap gap' c t here w now_at short enough =
    let m' : Lane = record m { deficit = credited s m } in
    let same : w.lane ≡ m = some_inj.0 (sym w.found ∙ here) in
    let size : length (set s.lanes s.round_index m') ≡ length s.lanes =
      length-set s.lanes s.round_index m' in
    let next : (passed s m (credited s m)).round_index
        ≡ (if s.round_index + 1 == length s.lanes then 0 else s.round_index + 1) =
      ap (λ n. (s.round_index + 1) % n) size
      ∙ next_index s.round_index (length s.lanes) w.in_range in
    record {
      lane = m';
      rest = w.rest;
      found = get_set_self s.lanes s.round_index m m' here;
      full = ap (λ (x : Lane). x.tasks) (sym same) ∙ w.full;
      earns = subst (λ (x : Lane). 0 < x.quantum) same w.earns;
      credit = c;
      deficit_is = now_at;
      fits = subst (λ (x : Lane). c + x.quantum < 2 ^ 63) same (omega (arith, w.cost_fits, short));
      cost_fits = subst (λ (x : Lane). t.cost + x.quantum ≤ 2 ^ 63) same w.cost_fits;
      lacks = enough;
      in_range = ground (arith, next, size, w.in_range);
    }

own_turn-left_over :
    (s : DrrScheduler) (m : Lane) (gap : ℕ)
    → s.round_index < length s.lanes
    → left_over (passed s m (credited s m)) s.round_index gap
      ≡ turns gap (length s.lanes) + (length s.lanes - 1)
own_turn-left_over s m gap h =
    let m' : Lane = record m { deficit = credited s m } in
    let size : length (set s.lanes s.round_index m') ≡ length s.lanes =
      length-set s.lanes s.round_index m' in
    let next : (passed s m (credited s m)).round_index
        ≡ (if s.round_index + 1 == length s.lanes then 0 else s.round_index + 1) =
      ap (λ n. (s.round_index + 1) % n) size ∙ next_index s.round_index (length s.lanes) h in
    let same_turns : turns gap (length (passed s m (credited s m)).lanes)
        ≡ turns gap (length s.lanes) =
      ap (turns gap) size in
    ground (arith, next, size, same_turns, h)

pub turns-suc : (n lanes : ℕ) → turns (suc n) lanes ≡ lanes + turns n lanes
unfolding turns
turns-suc n lanes = refl

add_int-small : (a b : ℕ) → a + b < 2 ^ 63 → add_int (pos a) b ≡ pos (a + b)
unfolding add_int
add_int-small a b h = rw (lt→ltb (a + b) (2 ^ 63) h) refl

covers-short : (d : ℤ) (c b : ℕ) → d ≡ pos c → covers d b ≡ false → c < b
unfolding covers
covers-short d c b e h =
    let short : leb b c ≡ false = sym (ap (λ x. covers x b) e) ∙ h in ground (arith, short)

-- Where the turn of lane `j` does not serve it, less is left to wait for.
pub own_turn :
    (s : DrrScheduler) (m : Lane) (gap : ℕ) (t : Task)
    → get_elem? s.lanes s.round_index ≡ some m
    → covers (credited s m) t.cost ≡ false
    → Waits s s.round_index gap t
    → (gap' : ℕ) × Waits (passed s m (credited s m)) s.round_index gap' t
      × (left_over (passed s m (credited s m)) s.round_index gap' < left_over s s.round_index gap)
own_turn s m gap t here short w =
    let same : w.lane ≡ m = some_inj.0 (sym w.found ∙ here) in
    let deficit_is : m.deficit ≡ pos w.credit =
      ap (λ (x : Lane). x.deficit) (sym same) ∙ w.deficit_is in
    elim (Bool-cases s.quantum_added) [
      | inl added ↦
          let now_at : credited s m ≡ pos w.credit = rw added deficit_is in
          let less = covers-short (credited s m) w.credit t.cost now_at short in
          (
            gap,
            own_turn-Waits s m gap gap w.credit t here w now_at less w.lacks,
            ground (arith, added, own_turn-left_over s m gap w.in_range, w.in_range),
          )
      | inr fresh ↦
          let earned : w.lane.quantum ≡ m.quantum = ap (λ (x : Lane). x.quantum) same in
          let now_at : credited s m ≡ pos (w.credit + m.quantum) = rw fresh (
            ap (λ d. add_int d m.quantum) deficit_is
            ∙ add_int-small w.credit m.quantum (omega (arith, w.fits, earned))) in
          let less = covers-short (credited s m) (w.credit + m.quantum) t.cost now_at short in
          let enough : t.cost ≤ (w.credit + m.quantum) + (gap - 1) =
            omega (arith, w.lacks, w.earns, earned) in
          let some_gap : suc (gap - 1) ≡ gap = omega (arith, w.lacks, w.earns, earned, less) in
          let one : turns gap (length s.lanes) ≡ length s.lanes + turns (gap - 1) (length s.lanes) =
            ap (λ n. turns n (length s.lanes)) (sym some_gap)
            ∙ turns-suc (gap - 1) (length s.lanes) in
          (
            gap - 1,
            own_turn-Waits s m gap (gap - 1) (w.credit + m.quantum) t here w now_at less enough,
            ground (arith, fresh, own_turn-left_over s m (gap - 1) w.in_range, w.in_range, one),
          )
    ]
