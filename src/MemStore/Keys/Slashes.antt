-- ===== src/MemStore/Keys/Slashes.antt =====
-- The key of a run tells its namespace and its ID, where the namespace has no slash.
use tempest.Base.{
  String, ◌≡◌, refl, sym, ap, ◌∙◌, ◌≢◌, inl, inr, false, ◌&&◌, ◌∷◌, Bool-cases, int_eq, ◌=?◌,
  string_eq, nat_eq, =?_refl, =?_ne, =?_eq,
}
use mathlib.Core.Bool.{true≢false}
use tempest.MemStore.Keys.{run_key}
use tempest.Base.Text.{has_char, split, split-part}
use text.Mathlib.TextLemmas.{append_cancel_left, cons-append, nil-append}
use Prim.Native.String.{◌++◌ as join}

key_text : (a b : String) → run_key a b ≡ join a (String.◌∷◌ "/" b)
unfolding run_key
key_text a b = ap (join a) (cons-append "/" "" b ∙ ap (String.◌∷◌ "/") (nil-append b))

key_joins : (a b : String) → join a (join "/" b) ≡ run_key a b
unfolding run_key
key_joins a b = refl

run_key-parts : (a b : String) → has_char "/" a ≡ false → split (run_key a b) "/" ≡ a ∷ split b "/"
run_key-parts a b free = rw (key_text a b) (split-part a b "/" free)

run_key-inj :
    (a b c d : String)
    → has_char "/" a ≡ false
    → has_char "/" c ≡ false
    → run_key a b ≡ run_key c d
    → (a ≡ c) × (b ≡ d)
run_key-inj a b c d free_a free_c e =
    let parts : a ∷ split b "/" ≡ c ∷ split d "/" =
      sym (run_key-parts a b free_a) ∙ ap (λ k. split k "/") e ∙ run_key-parts c d free_c in
    let same : a ≡ c = cc parts in
    let tails : join a (join "/" b) ≡ join a (join "/" d) =
      key_joins a b ∙ e ∙ sym (key_joins c d) ∙ ap (λ x. join x (join "/" d)) (sym same) in
    let ends : join "/" b ≡ join "/" d = append_cancel_left a (join "/" b) (join "/" d) tails in
    (same, append_cancel_left "/" b d ends)

pub key_test :
    (a b c d : String)
    → has_char "/" a ≡ false
    → has_char "/" c ≡ false
    → ((a =? c) && (b =? d)) ≡ (run_key a b =? run_key c d)
key_test a b c d free_a free_c = elim (Bool-cases (run_key a b =? run_key c d)) [
  | inl same ↦
      let (e, f) = run_key-inj a b c d free_a free_c (=?_eq (run_key a b) (run_key c d) same) in
      rw (same, e, f, =?_refl c, =?_refl d) refl
  | inr other ↦ elim (Bool-cases (a =? c)) [
    | inr off ↦ rw (off, other) refl
    | inl on ↦
        let apart : (b =? d) ≡ false = =?_ne b d (λ f. differ (other_key other) (=?_eq a c on) f) in
        rw (on, apart, other) refl
  ]
]
  where
    other_key : (run_key a b =? run_key c d) ≡ false → run_key a b ≢ run_key c d
    other_key other e =
        true≢false (sym (=?_refl (run_key a b)) ∙ ap (λ k. run_key a b =? k) e ∙ other)

    differ : run_key a b ≢ run_key c d → a ≡ c → b ≡ d → ⊥
    differ apart e f = apart (ap (λ x. run_key x b) e ∙ ap (run_key c) f)
