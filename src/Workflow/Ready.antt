-- ===== src/Workflow/Ready.antt =====
-- The loops of `ReadySteps`: the maps that they fill, and the steps that they select.
use tempest.Base.{
  String, ◌≡◌, refl, sym, ap, ◌∙◌, subst, ◌↔◌, ◌⊎◌, inl, inr, Bool, true, false, ◌&&◌, some, List,
  [], ◌∷◌, map, arith, if◌then◌else◌, Bool-cases, ◌=?◌, string_eq, nat_eq, =?_eq,
}
use tempest.Base.GoMap.{lookup, insert, lookup-insert}
use tempest.Types.{StepState, step_pending, step_succeeded, step_skipped, step_state_eq}
use tempest.Types.Records.{StepRun}
use tempest.Workflow.{fill, is_done, all_deps_done, deps_of, select_ready}
use mathlib.Core.List.{Memᴰ}
use mathlib.Core.Option.{some_inj}
use mathlib.Core.List.Memᴰ

module _ {κ} {V : Type κ} where
  none_lookup : (k : String) (v : V) → lookup [] k ≡ some v → ⊥
  unfolding lookup
  none_lookup k v h = ground arith

  -- What is read was written by the loop, or was there before.
  fill-source :
      (l m : List (String × V)) (k : String) (v : V)
      → lookup (fill l m) k ≡ some v
      → Memᴰ (k, v) l ⊎ (lookup m k ≡ some v)
  unfolding fill
  fill-source [] m k v h = inr h
  fill-source ((j, w) ∷ rest) m k v h = elim (fill-source rest (insert m j w) k v h) [
    | inl t ↦ inl (Memᴰ.tail t)
    | inr u ↦ elim (Bool-cases (j =? k)) [
      | inl same ↦
          let e : some w ≡ some v = sym (lookup-insert m j k w ∙ rw same refl) ∙ u in
          inl (
            Memᴰ.head
              (ap (λ a. (a, v)) (sym (=?_eq j k same)) ∙ ap (λ b. (j, b)) (sym (some_inj.0 e))))
      | inr other ↦ inr (sym (lookup-insert m j k w ∙ rw other refl) ∙ u)
    ]
  ]

  fill-kept :
      (l m : List (String × V)) (k : String) (v : V)
      → lookup m k ≡ some v
      → (w : V) × (lookup (fill l m) k ≡ some w)
  unfolding fill
  fill-kept [] m k v h = (v, h)
  fill-kept ((j, w) ∷ rest) m k v h = elim (Bool-cases (j =? k)) [
    | inl same ↦ fill-kept rest (insert m j w) k w (lookup-insert m j k w ∙ rw same refl)
    | inr other ↦ fill-kept rest (insert m j w) k v (lookup-insert m j k w ∙ rw other h)
  ]

  -- A key that the loop writes is found.
  fill-written :
      (l m : List (String × V)) (k : String) (v : V)
      → Memᴰ (k, v) l
      → (w : V) × (lookup (fill l m) k ≡ some w)
  unfolding fill
  fill-written [] m k v h = elim h [ ]
  fill-written ((j, w) ∷ rest) m k v (Memᴰ.head e) =
      fill-kept rest (insert m j w) k w
        (lookup-insert m j k w ∙ rw ((string_eq.beq_iff j k).1 (sym (ap (λ p. p.0) e))) refl)
  fill-written ((j, w) ∷ rest) m k v (Memᴰ.tail t) = fill-written rest (insert m j w) k v t

-- The two loops that fill a map from steps, for steps told apart by their IDs.
module _ {κ} {S : Type 0} {V : Type κ} (key : S → String) (value : S → V) where
  pub filled_finds :
      (l : List S)
      → ((s t : S) → Memᴰ s l → Memᴰ t l → key s ≡ key t → s ≡ t)
      → (s : S) → Memᴰ s l
      → lookup (fill (map (λ x. (key x, value x)) l) []) (key s) ≡ some (value s)
  filled_finds l distinct s k =
      let (w, found) =
        fill-written (map (λ x. (key x, value x)) l) [] (key s) (value s)
          (Memᴰ.map (λ x. (key x, value x)) k) in
      elim (fill-source (map (λ x. (key x, value x)) l) [] (key s) w found) [
        | inl t ↦
            let (u, there, e) = Memᴰ.of_map (λ x. (key x, value x)) l t in
            let same : s ≡ u = distinct s u k there (sym (ap (λ p. p.0) e)) in
            found ∙ ap some (sym (ap (λ p. p.1) e) ∙ ap value (sym same))
        | inr unread ↦ absurd (none_lookup (key s) w unread)
      ]

  pub filled_source :
      (l : List S) (k : String) (v : V)
      → lookup (fill (map (λ x. (key x, value x)) l) []) k ≡ some v
      → (s : S) × Memᴰ s l × (key s ≡ k) × (value s ≡ v)
  filled_source l k v h = elim (fill-source (map (λ x. (key x, value x)) l) [] k v h) [
    | inl t ↦
        let (u, there, e) = Memᴰ.of_map (λ x. (key x, value x)) l t in
        (u, there, ap (λ p. p.0) e, ap (λ p. p.1) e)
    | inr unread ↦ absurd (none_lookup k v unread)
  ]

-- A step that is over for those that wait for it.
abbrev pub IsOver : StepState → Type 0
IsOver s = (s ≡ step_succeeded) ⊎ (s ≡ step_skipped)

pub is_done_iff : (s : StepState) → (is_done (some s) ≡ true) ↔ IsOver s
unfolding is_done
is_done_iff s =
    ground (arith, step_state_eq.beq_iff s step_succeeded, step_state_eq.beq_iff s step_skipped)

pub all_deps_done_sound :
    (m : List (String × StepState)) (deps : List String) (d : String)
    → all_deps_done m deps ≡ true
    → Memᴰ d deps
    → is_done (lookup m d) ≡ true
unfolding all_deps_done
all_deps_done_sound m [] d h k = elim k [ ]
all_deps_done_sound m (x ∷ rest) d h (Memᴰ.head e) =
    rw e (ground (arith, h, Bool-cases (is_done (lookup m x))))
all_deps_done_sound m (x ∷ rest) d h (Memᴰ.tail k) =
    all_deps_done_sound m rest d (ground (arith, h, Bool-cases (is_done (lookup m x)))) k

-- Either all dependencies are done, or one is not.
pub all_deps_done-cases :
    (m : List (String × StepState)) (deps : List String)
    → (all_deps_done m deps ≡ true) ⊎ ((d : String) × Memᴰ d deps × (is_done (lookup m d) ≡ false))
unfolding all_deps_done
all_deps_done-cases m [] = inl refl
all_deps_done-cases m (x ∷ rest) = elim (Bool-cases (is_done (lookup m x))) [
  | inl done ↦ elim (all_deps_done-cases m rest) [
    | inl more ↦ inl (ground (arith, done, more))
    | inr (d, k, open_dep) ↦ inr (d, Memᴰ.tail k, open_dep)
  ]
  | inr waiting ↦ inr (x, Memᴰ.head refl, waiting)
]

module _ {Any : Type 0} where
  -- The test that the loop makes of one step.
  abbrev pub passes : List (String × List String) → List (String × StepState) → StepRun Any → Bool
  passes deps m s = (s.state =? step_pending) && all_deps_done m (deps_of deps s.step_id)

  select_ready-cons :
      (deps : List (String × List String)) (m : List (String × StepState)) (s : StepRun Any)
      (rest : List (StepRun Any))
      → select_ready deps m (s ∷ rest)
        ≡ (if passes deps m s then s ∷ select_ready deps m rest else select_ready deps m rest)
  unfolding select_ready
  select_ready-cons deps m s rest = ground (
    arith,
    Bool-cases (s.state =? step_pending),
    Bool-cases (all_deps_done m (deps_of deps s.step_id)),
  )

  select_ready-nil :
      (deps : List (String × List String)) (m : List (String × StepState))
      → select_ready {Any = Any} deps m [] ≡ []
  unfolding select_ready
  select_ready-nil deps m = refl

  pub select_ready_sound :
      (deps : List (String × List String)) (m : List (String × StepState)) (l : List (StepRun Any))
      (s : StepRun Any)
      → Memᴰ s (select_ready deps m l)
      → Memᴰ s l × (passes deps m s ≡ true)
  select_ready_sound deps m [] s k =
      absurd (Memᴰ.not-nil (subst (Memᴰ s) (select_ready-nil deps m) k))
  select_ready_sound deps m (x ∷ rest) s k = elim (Bool-cases (passes deps m x)) [
    | inl good ↦
        let k' : Memᴰ s (x ∷ select_ready deps m rest) =
          subst (Memᴰ s) (select_ready-cons deps m x rest ∙ rw good refl) k in
        elim (Memᴰ.cases_cons k') [
          | inl e ↦ (Memᴰ.head e, ap (passes deps m) e ∙ good)
          | inr t ↦
              let (there, pass) = select_ready_sound deps m rest s t in (Memᴰ.tail there, pass)
        ]
    | inr bad ↦
        let (there, pass) =
          select_ready_sound deps m rest s
            (subst (Memᴰ s) (select_ready-cons deps m x rest ∙ rw bad refl) k) in
        (Memᴰ.tail there, pass)
  ]

  pub select_ready_complete :
      (deps : List (String × List String)) (m : List (String × StepState)) (l : List (StepRun Any))
      (s : StepRun Any)
      → Memᴰ s l
      → passes deps m s ≡ true
      → Memᴰ s (select_ready deps m l)
  select_ready_complete deps m [] s k pass = elim k [ ]
  select_ready_complete deps m (x ∷ rest) s (Memᴰ.head e) pass =
      let good : passes deps m x ≡ true = sym (ap (passes deps m) e) ∙ pass in
      let kept : select_ready deps m (x ∷ rest) ≡ x ∷ select_ready deps m rest =
        select_ready-cons deps m x rest ∙ rw good refl in
      subst (Memᴰ s) (sym kept) (Memᴰ.head e)
  select_ready_complete deps m (x ∷ rest) s (Memᴰ.tail k) pass =
      let later = select_ready_complete deps m rest s k pass in
      elim (Bool-cases (passes deps m x)) [
        | inl good ↦
            let kept : select_ready deps m (x ∷ rest) ≡ x ∷ select_ready deps m rest =
              select_ready-cons deps m x rest ∙ rw good refl in
            subst (Memᴰ s) (sym kept) (Memᴰ.tail later)
        | inr bad ↦
            let left : select_ready deps m (x ∷ rest) ≡ select_ready deps m rest =
              select_ready-cons deps m x rest ∙ rw bad refl in
            subst (Memᴰ s) (sym left) later
      ]
