-- ===== src/Lower/Bodies/Interned/Durations.antt =====
-- `intern_duration` of hsmc-macros/src/ir.rs: the id of a duration.
use Prim.Native.String.{String, ◌++◌ as joined}
use Prim.Native.Char.{Char, code}
use text.Mathlib.Text.{◌==◌ as str_eq}
use text.Mathlib.TextEquality.{eq_iff}
use text.Mathlib.TextLemmas.{nil-append, cons-append}
use hsmc.Ir.{Ir, DurationTrigger, as_u16}
use hsmc.Lower.Bodies.Forest.{get_elem?-snoc}
use hsmc.Lower.Interning.{intern_duration, find_duration, full_key}
use hsmc.Prelude.{
  true, false, subst, ◌==◌, ℕ, suc, ◌≡◌, ◌∙◌, ap, sym, refl, Bool, Bool-cases, inl, inr, some,
  Option-cases, List, [], ◌∷◌, ◌++◌, length, length-append, get_elem?, get_elem?-range,
  get_elem?-append_last, arith,
}
use hsmc.Lower.Bodies.Interned.{tables, Fits, IsIndexed, Extends, Prefix-refl, Extends-refl}

-- A duration that is interned: the id stands for an entry with its key.
pub record IsTimer (key : String) (repeat : Bool) (ir : Ir) (r : Ir × ℕ) : Type 0 where
  pub grown : Extends (tables ir) (tables r.0)
  pub same_states : r.0.states ≡ ir.states
  pub stands :
      Fits (tables r.0)
      → IsIndexed r.0.duration_triggers
      → (d : DurationTrigger) × (get_elem? r.0.duration_triggers r.1 ≡ some d)
        × (d.key ≡ full_key key repeat)
        × (d.repeat ≡ repeat)

-- The last but one character is a `u`.
abbrev penult_u : String → Bool
penult_u String.[] = false
penult_u (String.◌∷◌ a String.[]) = false
penult_u (String.◌∷◌ a (String.◌∷◌ b String.[])) = code a == 117
penult_u (String.◌∷◌ a (String.◌∷◌ b (String.◌∷◌ c s))) = penult_u (String.◌∷◌ b (String.◌∷◌ c s))

penult_u-joined :
    (k : String) (a b : Char) (t : String)
    → penult_u (joined k (String.◌∷◌ a (String.◌∷◌ b t))) ≡ penult_u (String.◌∷◌ a (String.◌∷◌ b t))
penult_u-joined String.[] a b t = ap penult_u (nil-append (String.◌∷◌ a (String.◌∷◌ b t)))
penult_u-joined (String.◌∷◌ c String.[]) a b t = ap penult_u (
    cons-append c "" (String.◌∷◌ a (String.◌∷◌ b t))
    ∙ ap (String.◌∷◌ c) (nil-append (String.◌∷◌ a (String.◌∷◌ b t))))
penult_u-joined (String.◌∷◌ c (String.◌∷◌ d String.[])) a b t =
    let u = String.◌∷◌ a (String.◌∷◌ b t) in
    ap penult_u (
      cons-append c (String.◌∷◌ d "") u
      ∙ ap (String.◌∷◌ c) (cons-append d "" u ∙ ap (String.◌∷◌ d) (nil-append u)))
penult_u-joined (String.◌∷◌ c (String.◌∷◌ d (String.◌∷◌ e k))) a b t =
    let u = String.◌∷◌ a (String.◌∷◌ b t) in
    let inner : joined (String.◌∷◌ d (String.◌∷◌ e k)) u
        ≡ String.◌∷◌ d (String.◌∷◌ e (joined k u)) =
      cons-append d (String.◌∷◌ e k) u ∙ ap (String.◌∷◌ d) (cons-append e k u) in
    ap penult_u (cons-append c (String.◌∷◌ d (String.◌∷◌ e k)) u ∙ ap (String.◌∷◌ c) inner)
    ∙ ap penult_u (sym inner)
    ∙ penult_u-joined (String.◌∷◌ d (String.◌∷◌ e k)) a b t

penult_u-full_key : (key : String) (repeat : Bool) → penult_u (full_key key repeat) ≡ repeat
penult_u-full_key key true = penult_u-joined key ":" "t" "rue"
penult_u-full_key key false = penult_u-joined key ":" "f" "alse"

full_key-repeat : (k l : String) (r q : Bool) → full_key k r ≡ full_key l q → r ≡ q
full_key-repeat k l r q e = sym (penult_u-full_key k r) ∙ ap penult_u e ∙ penult_u-full_key l q

find_duration-found :
    (key : String) (ds : List DurationTrigger) {id : ℕ}
    → find_duration key ds ≡ some id
    → (j : ℕ) × (d : DurationTrigger) × (get_elem? ds j ≡ some d) × (d.key ≡ key) × (d.id ≡ id)
find_duration-found key [] h = cc
find_duration-found key (d ∷ ds) h = elim (Bool-cases (str_eq d.key key)) [
  | inl here ↦ (0, d, refl, (eq_iff d.key key).0 here, ground arith)
  | inr other ↦
      let (j, e, at, same, id) = find_duration-found key ds (rw other at h) in
      (suc j, e, at, same, id)
]

snoc-IsIndexed :
    (ds : List DurationTrigger) (d : DurationTrigger)
    → (d.id ≡ as_u16 (length ds)) × (key : String) × (d.key ≡ full_key key d.repeat)
    → IsIndexed ds
    → IsIndexed (ds ++ d ∷ [])
snoc-IsIndexed ds d e h j x at = elim (get_elem?-snoc ds d j at) [
  | inl old ↦ h j x old
  | inr (last, same) ↦
      let id = ap (λ (y : DurationTrigger). y.id) (sym same) ∙ e.0 ∙ ap as_u16 (sym last) in
      let (key, keyed) =
        subst (λ (y : DurationTrigger). (key : String) × (y.key ≡ full_key key y.repeat)) same
          (e.1, e.2) in
      (id, key, keyed)
]

pub intern_duration-IsTimer :
    (expr key : String) (repeat : Bool) (ir : Ir)
    → IsTimer key repeat ir (intern_duration expr key repeat ir)
unfolding intern_duration
intern_duration-IsTimer expr key repeat ir =
    elim (Option-cases (find_duration (full_key key repeat) ir.duration_triggers)) [
      | inr (id, e) ↦
          let (j, d, at, same, named) =
            find_duration-found (full_key key repeat) ir.duration_triggers e in
          rw (e, intern_duration)
            (record {
              grown = Extends-refl (tables ir);
              same_states = refl;
              stands = λ fits indexed.
                  let range = get_elem?-range ir.duration_triggers j at in
                  let (is_j, k, keyed) = indexed j d at in
                  let here : id ≡ j = omega (arith, named, is_j, fits.durations_fit) in
                  (
                    d,
                    ap (get_elem? ir.duration_triggers) here ∙ at,
                    same,
                    full_key-repeat k key d.repeat repeat (sym keyed ∙ same),
                  );
            })
      | inl e ↦
          let new : DurationTrigger = record {
            id = as_u16 (length ir.duration_triggers);
            key = full_key key repeat;
            expr = expr;
            repeat = repeat;
          } in
          rw (e, intern_duration)
            (record {
              grown = record {
                same_chart = refl;
                more_actions = Prefix-refl (tables ir).actions;
                more_events = Prefix-refl (tables ir).events;
                more_durations = (new ∷ [], refl);
                indexed = snoc-IsIndexed ir.duration_triggers new (refl, key, refl);
              };
              same_states = refl;
              stands = λ fits indexed.
                  let small : as_u16 (length ir.duration_triggers) ≡ length ir.duration_triggers =
                    omega
                      (arith, fits.durations_fit, length-append ir.duration_triggers (new ∷ [])) in
                  (
                    new,
                    ap (get_elem? (ir.duration_triggers ++ new ∷ [])) small
                        ∙ get_elem?-append_last ir.duration_triggers new [],
                    refl,
                    refl,
                  );
            })
    ]
