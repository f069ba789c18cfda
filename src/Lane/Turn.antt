-- ===== src/Lane/Turn.antt =====
-- What one attempt of the round robin does for a lane that waits for its turn.
use tempest.Base.{
  ℤ, pos, ◌^◌, false, wrap_lem, nat_eq, ℕ, zero, suc, ◌+◌, ◌-◌, ◌%◌, ◌≤◌, ◌<◌, ◌≡◌, refl, ap, ◌∙◌,
  ◌≢◌, ◌⊎◌, inl, inr, none, some, List, [], ◌∷◌, arith, leb, ◌==◌, if◌then◌else◌, Bool-cases,
  length, get_elem?, set, length-set, List-cases, string_eq, nat_eq,
}
use tempest.Lane.{Task, Lane}
use tempest.Lane.Drr.{DrrScheduler, covers, credited, served, attempt}
use tempest.Lane.Dispatch.{passed}

-- `n` turns round all the lanes.
unfoldable pub turns : ℕ → ℕ → ℕ
turns zero lanes = 0
turns (suc n) lanes = lanes + turns n lanes

turns_mono : (m n lanes : ℕ) → m ≤ n → turns m lanes ≤ turns n lanes
unfolding turns
turns_mono zero n lanes h = omega arith
turns_mono (suc m) zero lanes h = absurd (omega arith)
turns_mono (suc m) (suc n) lanes h = omega (arith, turns_mono m n lanes (omega arith))

pub get_set_self :
    (ls : List Lane) (i : ℕ) (l m : Lane)
    → get_elem? ls i ≡ some l
    → get_elem? (set ls i m) i ≡ some m
get_set_self [] i l m h = ground (arith, h)
get_set_self (x ∷ ls) zero l m h = refl
get_set_self (x ∷ ls) (suc i) l m h = get_set_self ls i l m h

get_set_ne :
    (ls : List Lane) (i j : ℕ) (m : Lane) → i ≢ j → get_elem? (set ls i m) j ≡ get_elem? ls j
get_set_ne [] i j m h = refl
get_set_ne (x ∷ ls) zero zero m h = absurd (h refl)
get_set_ne (x ∷ ls) zero (suc j) m h = refl
get_set_ne (x ∷ ls) (suc i) zero m h = refl
get_set_ne (x ∷ ls) (suc i) (suc j) m h = get_set_ne ls i j m (λ e. h (ap suc e))

pub get_below : (ls : List Lane) (i : ℕ) → i < length ls → (l : Lane) × (get_elem? ls i ≡ some l)
get_below [] i h = absurd (omega arith)
get_below (x ∷ ls) zero h = (x, refl)
get_below (x ∷ ls) (suc i) h = get_below ls i (omega arith)

pub get_bound : (ls : List Lane) (i : ℕ) (l : Lane) → get_elem? ls i ≡ some l → i < length ls
get_bound [] i l h = ground (arith, h)
get_bound (x ∷ ls) zero l h = omega arith
get_bound (x ∷ ls) (suc i) l h = omega (arith, get_bound ls i l h)

-- Lane `j` has the head `t` waiting, and lacks `gap` of the credit that serves it; its credit and
-- its quantum stay in the range of an int.
pub record Waits (s : DrrScheduler) (j gap : ℕ) (t : Task) : Type 0 where
  pub lane : Lane
  pub rest : List Task
  pub found : get_elem? s.lanes j ≡ some lane
  pub full : lane.tasks ≡ t ∷ rest
  pub earns : 0 < lane.quantum
  pub credit : ℕ
  pub deficit_is : lane.deficit ≡ pos credit
  pub fits : credit + lane.quantum < 2 ^ 63
  pub cost_fits : t.cost + lane.quantum ≤ 2 ^ 63
  pub lacks : t.cost ≤ credit + gap
  pub in_range : s.round_index < length s.lanes

-- How many attempts pass until the turn of lane `j`.
abbrev pub ahead : DrrScheduler → ℕ → ℕ
ahead s j = if leb s.round_index j then j - s.round_index else j + length s.lanes - s.round_index

abbrev pub left_over : DrrScheduler → ℕ → ℕ → ℕ
left_over s j gap =
    turns gap (length s.lanes) + (ahead s j + (if s.quantum_added then length s.lanes else 0))

-- An attempt at the lane in turn, on each branch.
pub attempt_turn :
    (s : DrrScheduler) (m : Lane)
    → get_elem? s.lanes s.round_index ≡ some m
    → ((m.tasks ≡ []) × (attempt s ≡ (none, passed s m (pos 0))))
      ⊎ ((t : Task) × (rest : List Task) × (m.tasks ≡ t ∷ rest)
          × (((covers (credited s m) t.cost ≡ false)
                × (attempt s ≡ (none, passed s m (credited s m))))
              ⊎ (attempt s ≡ (some t, served s m t rest))))
unfolding attempt
attempt_turn s m found = elim (List-cases m.tasks) [
  | inl empty ↦ inl (empty, ground (arith, found, empty))
  | inr (t, rest, full) ↦ inr (
    t,
    rest,
    full,
    elim (Bool-cases (covers (credited s m) t.cost)) [
      | inl paid ↦ inr (ground (arith, found, full, paid))
      | inr short ↦ inl (short, ground (arith, found, full, short))
    ],
  )
]

-- The next index in the round.
pub next_index : (i n : ℕ) → i < n → (i + 1) % n ≡ (if i + 1 == n then 0 else i + 1)
next_index i n h = elim (Bool-cases (i + 1 == n)) [
  | inl last ↦ ground (arith, last, wrap_lem (i + 1) n (omega (arith, h)))
  | inr inside ↦ ground (arith, inside, h, wrap_lem (i + 1) n (omega (arith, h)))
]

-- An attempt at another lane brings the turn of lane `j` one step closer.
pub other_turn :
    (s : DrrScheduler) (m : Lane) (d : ℤ) (j gap : ℕ) (t : Task)
    → s.round_index ≢ j
    → Waits s j gap t
    → Waits (passed s m d) j gap t × (left_over (passed s m d) j gap < left_over s j gap)
other_turn s m d j gap t off w =
    let m' : Lane = record m { deficit = d } in
    let size : length (set s.lanes s.round_index m') ≡ length s.lanes =
      length-set s.lanes s.round_index m' in
    let bound = get_bound s.lanes j w.lane w.found in
    let next : (passed s m d).round_index
        ≡ (if s.round_index + 1 == length s.lanes then 0 else s.round_index + 1) =
      ap (λ n. (s.round_index + 1) % n) size
      ∙ next_index s.round_index (length s.lanes) w.in_range in
    let same_turns : turns gap (length (passed s m d).lanes) ≡ turns gap (length s.lanes) =
      ap (turns gap) size in
    (
      record {
        lane = w.lane;
        rest = w.rest;
        found = get_set_ne s.lanes s.round_index j m' off ∙ w.found;
        full = w.full;
        earns = w.earns;
        credit = w.credit;
        deficit_is = w.deficit_is;
        fits = w.fits;
        cost_fits = w.cost_fits;
        lacks = w.lacks;
        in_range = ground (arith, next, size, w.in_range);
      },
      ground (arith, next, size, same_turns, bound, off, w.in_range),
    )
