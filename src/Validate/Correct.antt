-- ===== src/Validate/Correct.antt =====
-- What `validate` and `validate_parse_tree` of hsmc-macros/src/validate.rs promise of what they accept.
use Prim.Native.String.{String}
use text.Mathlib.Text.{◌==◌ as str_eq}
use text.Mathlib.TextEquality.{eq_iff}
use hsmc.Input.{During}
use hsmc.Ir.{Ir, StateIr, HandlerIr, DurationTrigger}
use hsmc.Lower.Bodies.{has_name}
use hsmc.Lower.Resolve.{NameMap, name_map}
use hsmc.Prelude.{
  ◌≡◌, ◌≢◌, sym, subst, ◌∙◌, false, Bool-cases, inl, inr, List, [], ◌∷◌, All, All-map, arith,
}
use hsmc.Refusal.{Refusal, accepted, >>=-eq-accepted}
use hsmc.Validate.{
  check_fields, check_each, check_across, is_empty_state, validate_state, validate_states,
  check_names, validate,
}
use hsmc.Validate.Graph.{validate_default_graph}
use hsmc.Validate.Handlers.{IsOrdered, IsNamedKind, check_handlers-IsOrdered}

-- No two states but the root have the same name.
abbrev pub AreDistinct : List StateIr → Type 0
AreDistinct [] = Unit
AreDistinct (s ∷ rest) =
    (s.name ≢ "__Root" → All (λ (t : StateIr). t.name ≢ s.name) rest) × AreDistinct rest

all_map :
    {A : Type 0} (P Q : A → Type 0) (xs : List A) → ((x : A) → P x → Q x) → All P xs → All Q xs
all_map P Q xs f h = All-map f xs h

has_name-cons :
    (n x : String) (xs : List String)
    → has_name n (x ∷ xs) ≡ false
    → (x ≢ n) × (has_name n xs ≡ false)
has_name-cons n x xs h = elim (Bool-cases (str_eq x n)) [
  | inl hit ↦ ground arith
  | inr miss ↦ ((λ same. let hit = (eq_iff x n).1 same in cc), ground arith)
]

check_names-AreDistinct :
    (states : List StateIr) (seen : List String) {u : Unit {0}}
    → check_names states seen ≡ accepted u
    → All (λ (s : StateIr). s.name ≢ "__Root" → has_name s.name seen ≡ false) states
      × AreDistinct states
check_names-AreDistinct [] seen e = (tt, tt)
check_names-AreDistinct (s ∷ rest) seen e = elim (Bool-cases (str_eq s.name "__Root")) [
  | inl root ↦
      let is_root = (eq_iff s.name "__Root").0 root in
      let (fresh, distinct) = check_names-AreDistinct rest seen (ground arith) in
      (((λ other. absurd (other is_root)), fresh), ((λ other. absurd (other is_root)), distinct))
  | inr named ↦ elim (Bool-cases (has_name s.name seen)) [
    | inl twice ↦ ground arith
    | inr new ↦
        let (fresh, distinct) = check_names-AreDistinct rest (s.name ∷ seen) (ground arith) in
        (
          (
            (λ other. new),
            all_map (λ (t : StateIr). t.name ≢ "__Root" → has_name t.name (s.name ∷ seen) ≡ false)
                (λ (t : StateIr). t.name ≢ "__Root" → has_name t.name seen ≡ false) rest
                (λ t f other. (has_name-cons t.name s.name seen (f other)).1) fresh,
          ),
          (
            (λ other.
                all_map
                  (λ (t : StateIr). t.name ≢ "__Root" → has_name t.name (s.name ∷ seen) ≡ false)
                  (λ (t : StateIr). t.name ≢ s.name) rest
                  (λ t f same.
                    (has_name-cons t.name s.name seen (f (λ root. other (sym same ∙ root)))).0
                      (sym same))
                  fresh),
            distinct,
          ),
        )
  ]
]

-- The fields of a `during:` are distinct, and no two durings share one.
abbrev pub AllDiffer : List String → Type 0
AllDiffer [] = Unit
AllDiffer (f ∷ fs) = All (λ g. f ≢ g) fs × AllDiffer fs

abbrev pub AreDisjoint : List During → Type 0
AreDisjoint [] = Unit
AreDisjoint (d ∷ ds) =
    AllDiffer d.fields
    × All (λ (d' : During). All (λ g. All (λ f. f ≢ g) d.fields) d'.fields) ds
    × AreDisjoint ds

-- What the check of the fields of one `during:` finds.
record Fresh (fs seen seen' : List String) : Type 0 where
  kept : (g : String) → has_name g seen' ≡ false → has_name g seen ≡ false
  differ : AllDiffer fs
  new : All (λ f. has_name f seen ≡ false) fs
  added : (g : String) → has_name g seen' ≡ false → All (λ f. f ≢ g) fs

check_fields-Fresh :
    (report : String → Refusal) (fs seen : List String) {seen' : List String}
    → check_fields report fs seen ≡ accepted seen'
    → Fresh fs seen seen'
check_fields-Fresh report [] seen {seen'} e =
    let same : seen ≡ seen' = cc in
    subst (Fresh [] seen) same
      (record { kept = λ g h. h; differ = tt; new = tt; added = λ g h. tt })
check_fields-Fresh report (f ∷ fs) seen {seen'} e = elim (Bool-cases (has_name f seen)) [
  | inl twice ↦ ground arith
  | inr new ↦
      let t : Fresh fs (f ∷ seen) seen' = check_fields-Fresh report fs (f ∷ seen) (ground arith) in
      record {
        kept = λ g h. (has_name-cons g f seen (t.kept g h)).1;
        differ = (
          all_map (λ g. has_name g (f ∷ seen) ≡ false) (λ g. f ≢ g) fs
              (λ g h. (has_name-cons g f seen h).0) t.new,
          t.differ,
        );
        new = (
          new,
          all_map (λ g. has_name g (f ∷ seen) ≡ false) (λ g. has_name g seen ≡ false) fs
              (λ g h. (has_name-cons g f seen h).1) t.new,
        );
        added = λ g h. ((has_name-cons g f seen (t.kept g h)).0, t.added g h);
      }
]

check_across-AreDisjoint :
    (ds : List During) (seen : List String) {u : Unit {0}}
    → check_across ds seen ≡ accepted u
    → All (λ (d : During). All (λ f. has_name f seen ≡ false) d.fields) ds × AreDisjoint ds
check_across-AreDisjoint [] seen e = (tt, tt)
check_across-AreDisjoint (d ∷ ds) seen e =
    let (seen', one, e1) = >>=-eq-accepted (check_fields _ d.fields seen) _ e in
    let t : Fresh d.fields seen seen' = check_fields-Fresh _ d.fields seen one in
    let (later, disjoint) = check_across-AreDisjoint ds seen' e1 in
    let P = λ (f : String). has_name f seen' ≡ false in
    (
      (
        t.new,
        all_map (λ (d' : During). All P d'.fields)
            (λ (d' : During). All (λ f. has_name f seen ≡ false) d'.fields) ds
            (λ d' h. all_map P (λ f. has_name f seen ≡ false) d'.fields t.kept h) later,
      ),
      (
        t.differ,
        all_map (λ (d' : During). All P d'.fields)
            (λ (d' : During). All (λ g. All (λ f. f ≢ g) d.fields) d'.fields) ds
            (λ d' h. all_map P (λ g. All (λ f. f ≢ g) d.fields) d'.fields t.added h) later,
        disjoint,
      ),
    )

-- A state that is accepted.
pub record IsValid (names : NameMap) (s : StateIr) : Type 0 where
  pub used : is_empty_state s ≡ false
  pub disjoint : AreDisjoint s.durings
  pub ordered : IsOrdered s.handlers
  pub named : All (λ (h : HandlerIr). IsNamedKind names h.kind) s.handlers

validate_state-IsValid :
    (names : NameMap) (durations : List DurationTrigger) (s : StateIr) {u : Unit {0}}
    → validate_state names durations s ≡ accepted u
    → IsValid names s
unfolding validate_state
validate_state-IsValid names durations s e = elim (Bool-cases (is_empty_state s)) [
  | inl nothing ↦ ground arith
  | inr something ↦
      let (each, one, e1) =
        >>=-eq-accepted (check_each s.durings) _ (rw (something, validate_state) at e) in
      let (across, two, e2) = >>=-eq-accepted (check_across s.durings []) _ e1 in
      let (ordered, named) = check_handlers-IsOrdered names durations s.name s.handlers [] [] e2 in
      record {
        used = something;
        disjoint = (check_across-AreDisjoint s.durings [] two).1;
        ordered = ordered;
        named = named;
      }
]

validate_states-IsValid :
    (names : NameMap) (durations : List DurationTrigger) (states : List StateIr) {u : Unit {0}}
    → validate_states names durations states ≡ accepted u
    → All (IsValid names) states
validate_states-IsValid names durations [] e = tt
validate_states-IsValid names durations (s ∷ rest) e =
    let (one, first, e1) = >>=-eq-accepted (validate_state names durations s) _ e in
    (
      validate_state-IsValid names durations s first,
      validate_states-IsValid names durations rest e1,
    )

-- A chart that `validate` accepts has passed the walk of its defaults, and its states but those called
-- `__Root` have different names. Every state that has a parent has an item; the durings of a state
-- borrow different fields; on one trigger a state has one transition at most, which no action declared
-- later follows; and the targets of its transitions are in the map of names.
pub validate-IsValid :
    (ir : Ir)
    → validate ir ≡ accepted tt
    → (validate_default_graph ir.states ≡ accepted tt)
      × AreDistinct ir.states
      × All (IsValid (name_map ir)) ir.states
unfolding validate
validate-IsValid ir e =
    let (graph, one, e1) = >>=-eq-accepted (validate_default_graph ir.states) _ e in
    let (once, two, e2) = >>=-eq-accepted (check_names ir.states []) _ e1 in
    (
      one,
      (check_names-AreDistinct ir.states [] two).1,
      validate_states-IsValid (name_map ir) ir.duration_triggers ir.states e2,
    )
