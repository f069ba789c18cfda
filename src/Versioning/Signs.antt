-- ===== src/Versioning/Signs.antt =====
-- The order of one number of a version, before what follows, and of the pre-releases.
use tempest.Base.{
  zero, suc, String, ◌≡◌, refl, sym, ap, ◌∙◌, subst, ◌⊎◌, inl, inr, true, false, arith,
  if◌then◌else◌, Bool-cases, ℤ, pos, negsuc, exceeds, int_eq, exceeds_asym, exceeds_total,
  exceeds_trans, ◌=?◌, string_eq, nat_eq, =?_refl, =?_ne,
}
use tempest.Base.Text.{text_ne, text_less, text_less_asym, text_less_total, text_less_trans}
use tempest.Versioning.{by_int, by_pre}
use Prim.Native.Char.{Char}
use mathlib.Core.Bool.{true≢false}

abbrev pub opposite : ℤ → ℤ
opposite (pos zero) = pos 0
opposite (pos (suc n)) = negsuc n
opposite (negsuc n) = pos (suc n)

int_cases : (a b : ℤ) → (a ≡ b) ⊎ ((exceeds a b ≡ true) ⊎ (exceeds b a ≡ true))
int_cases a b = elim (Bool-cases (exceeds a b)) [
  | inl above ↦ inr (inl above)
  | inr least ↦ elim (Bool-cases (exceeds b a)) [
    | inl below ↦ inr (inr below)
    | inr neither ↦ inl (exceeds_total a b least neither)
  ]
]

exceeds_irrefl : (a : ℤ) → exceeds a a ≡ false
exceeds_irrefl (pos a) = ground arith
exceeds_irrefl (negsuc a) = ground arith

exceeds_ne : (a b : ℤ) → exceeds a b ≡ true → (a =? b) ≡ false
exceeds_ne a b h = =?_ne a b (λ p. true≢false (sym h ∙ ap (λ c. exceeds c b) p ∙ exceeds_irrefl b))

by_int_same : (a x : ℤ) → by_int a a x ≡ x
by_int_same a x = rw (=?_refl a) refl

by_int_above : (a b x : ℤ) → exceeds a b ≡ true → by_int a b x ≡ pos 1
by_int_above a b x h = rw (exceeds_ne a b h, h) refl

by_int_below : (a b x : ℤ) → exceeds b a ≡ true → by_int a b x ≡ negsuc 0
by_int_below a b x h =
    rw
      (
        =?_ne a b (λ p. true≢false (sym h ∙ ap (exceeds b) p ∙ exceeds_irrefl b)),
        exceeds_asym b a h,
      )
      refl

pub by_int-opposite : (a b x y : ℤ) → y ≡ opposite x → by_int b a y ≡ opposite (by_int a b x)
by_int-opposite a b x y h = elim (int_cases a b) [
  | inl same ↦ rw same (by_int_same b y ∙ h ∙ ap opposite (sym (by_int_same b x)))
  | inr (inl above) ↦ by_int_below b a y above ∙ ap opposite (sym (by_int_above a b x above))
  | inr (inr below) ↦ by_int_above b a y below ∙ ap opposite (sym (by_int_below a b x below))
]

pub by_int_zero : (a b x : ℤ) → by_int a b x ≡ pos 0 → (a ≡ b) × (x ≡ pos 0)
by_int_zero a b x h = elim (int_cases a b) [
  | inl same ↦ (same, sym (by_int_same b x) ∙ ap (λ c. by_int c b x) (sym same) ∙ h)
  | inr (inl above) ↦ ground (arith, by_int_above a b x above, h)
  | inr (inr below) ↦ ground (arith, by_int_below a b x below, h)
]

pub by_int_less :
    (a b c x y z : ℤ)
    → (x ≡ negsuc 0 → y ≡ negsuc 0 → z ≡ negsuc 0)
    → by_int a b x ≡ negsuc 0
    → by_int b c y ≡ negsuc 0
    → by_int a c z ≡ negsuc 0
by_int_less a b c x y z k h g = elim (int_cases a b) [
  | inl same ↦ elim (int_cases b c) [
    | inl same' ↦
        let left : x ≡ negsuc 0 = sym (by_int_same b x) ∙ ap (λ e. by_int e b x) (sym same) ∙ h in
        let right : y ≡ negsuc 0 = sym (by_int_same c y) ∙ ap (λ e. by_int e c y) (sym same') ∙ g in
        ap (λ e. by_int e c z) (same ∙ same') ∙ by_int_same c z ∙ k left right
    | inr (inl above) ↦ ground (arith, by_int_above b c y above, g)
    | inr (inr below) ↦ by_int_below a c z (ap (exceeds c) same ∙ below)
  ]
  | inr (inl above) ↦ ground (arith, by_int_above a b x above, h)
  | inr (inr below) ↦ elim (int_cases b c) [
    | inl same' ↦ by_int_below a c z (ap (λ e. exceeds e a) (sym same') ∙ below)
    | inr (inl above) ↦ ground (arith, by_int_above b c y above, g)
    | inr (inr below') ↦ by_int_below a c z (exceeds_trans c b a below' below)
  ]
]

-- The order of the pre-releases, where none comes last.
abbrev text_order : String → String → ℤ
text_order s t = if text_less t s then pos 1 else if text_less s t then negsuc 0 else pos 0

by_pre_texts :
    (c d : Char) (s t : String)
    → by_pre (String.◌∷◌ c s) (String.◌∷◌ d t) ≡ text_order (String.◌∷◌ c s) (String.◌∷◌ d t)
by_pre_texts c d s t = rw (text_ne c s, text_ne d t) refl

text_order-opposite : (s t : String) → text_order t s ≡ opposite (text_order s t)
text_order-opposite s t = elim (Bool-cases (text_less s t)) [
  | inl less ↦ rw (less, text_less_asym s t less) refl
  | inr more ↦ elim (Bool-cases (text_less t s)) [
    | inl less ↦ rw (less, more) refl
    | inr same ↦ rw (same, more) refl
  ]
]

text_order_zero : (s t : String) → text_order s t ≡ pos 0 → s ≡ t
text_order_zero s t h =
    text_less_total s t (ground (arith, text_less_asym s t)) (ground (arith, text_less_asym s t))

text_order_less :
    (r s t : String)
    → text_order r s ≡ negsuc 0
    → text_order s t ≡ negsuc 0
    → text_order r t ≡ negsuc 0
text_order_less r s t h g =
    let less : text_less r t ≡ true = text_less_trans r s t (ground arith) (ground arith) in
    rw (text_less_asym r t less, less) refl

pub by_pre-opposite : (s t : String) → by_pre t s ≡ opposite (by_pre s t)
by_pre-opposite String.[] String.[] = refl
by_pre-opposite String.[] (String.◌∷◌ d t) = rw (text_ne d t) refl
by_pre-opposite (String.◌∷◌ c s) String.[] = rw (text_ne c s) refl
by_pre-opposite (String.◌∷◌ c s) (String.◌∷◌ d t) =
    by_pre_texts d c t s
    ∙ text_order-opposite (String.◌∷◌ c s) (String.◌∷◌ d t)
    ∙ ap opposite (sym (by_pre_texts c d s t))

pub by_pre_zero : (s t : String) → by_pre s t ≡ pos 0 → s ≡ t
by_pre_zero String.[] String.[] h = refl
by_pre_zero String.[] (String.◌∷◌ d t) h = ground (arith, text_ne d t, h)
by_pre_zero (String.◌∷◌ c s) String.[] h = ground (arith, text_ne c s, h)
by_pre_zero (String.◌∷◌ c s) (String.◌∷◌ d t) h =
    text_order_zero (String.◌∷◌ c s) (String.◌∷◌ d t) (sym (by_pre_texts c d s t) ∙ h)

pub by_pre_less :
    (r s t : String) → by_pre r s ≡ negsuc 0 → by_pre s t ≡ negsuc 0 → by_pre r t ≡ negsuc 0
by_pre_less String.[] String.[] t h g = ground (arith, h)
by_pre_less String.[] (String.◌∷◌ d s) t h g = ground (arith, text_ne d s, h)
by_pre_less (String.◌∷◌ c r) s String.[] h g = rw (text_ne c r) refl
by_pre_less (String.◌∷◌ c r) String.[] (String.◌∷◌ e t) h g = ground (arith, text_ne e t, g)
by_pre_less (String.◌∷◌ c r) (String.◌∷◌ d s) (String.◌∷◌ e t) h g =
    by_pre_texts c e r t
    ∙ text_order_less (String.◌∷◌ c r) (String.◌∷◌ d s) (String.◌∷◌ e t)
        (sym (by_pre_texts c d r s) ∙ h) (sym (by_pre_texts d e s t) ∙ g)

abbrev pub IsSign : ℤ → Type 0
IsSign x = (x ≡ pos 0) ⊎ ((x ≡ pos 1) ⊎ (x ≡ negsuc 0))

pub by_int-IsSign : (a b x : ℤ) → IsSign x → IsSign (by_int a b x)
by_int-IsSign a b x h = elim (int_cases a b) [
  | inl same ↦ subst IsSign (sym (ap (λ e. by_int e b x) same ∙ by_int_same b x)) h
  | inr (inl above) ↦ inr (inl (by_int_above a b x above))
  | inr (inr below) ↦ inr (inr (by_int_below a b x below))
]

text_order-IsSign : (s t : String) → IsSign (text_order s t)
text_order-IsSign s t = elim (Bool-cases (text_less t s)) [
  | inl less ↦ inr (inl (rw less refl))
  | inr more ↦ elim (Bool-cases (text_less s t)) [
    | inl less ↦ inr (inr (rw (more, less) refl))
    | inr same ↦ inl (rw (more, same) refl)
  ]
]

pub by_pre-IsSign : (s t : String) → IsSign (by_pre s t)
by_pre-IsSign String.[] String.[] = inl refl
by_pre-IsSign String.[] (String.◌∷◌ d t) = inr (inl (rw (text_ne d t) refl))
by_pre-IsSign (String.◌∷◌ c s) String.[] = inr (inr (rw (text_ne c s) refl))
by_pre-IsSign (String.◌∷◌ c s) (String.◌∷◌ d t) =
    subst IsSign (sym (by_pre_texts c d s t)) (text_order-IsSign (String.◌∷◌ c s) (String.◌∷◌ d t))
