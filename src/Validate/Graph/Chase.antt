-- ===== src/Validate/Graph/Chase.antt =====
-- The inner loop of `validate_default_graph` in hsmc-macros/src/validate.rs: a chain of default edges.
use Prim.Native.String.{String}
use hsmc.Ir.{StateIr}
use hsmc.Journal.Replay.{In}
use hsmc.Lower.{index_of}
use hsmc.Prelude.{
  ℕ, zero, suc, ◌+◌, ◌-◌, ◌<◌, ◌≤◌, ◌≡◌, ◌∙◌, ◌==◌, ap, sym, subst, refl, ◌⊎◌, inl, inr, Option,
  none, some, Option-cases, some_case, none_case, List, [], ◌∷◌, ◌++◌, append_assoc, append-nil,
  length, get_elem?, get_elem?-some, set, drop, arith,
}
use hsmc.Refusal.{Result, accepted, refused, default_cycle}
use hsmc.Validate.Graph.{Color, white, gray, black, report_cycle, chase}
use hsmc.Validate.Graph.Colors.{
  length-set, get_elem?-set, whites, whites-gray, In-append_left, In-snoc, In-append_cases, In-drop,
  index_of-some, names_of-some,
}

-- The default edge of a state.
unfoldable pub next_of : List StateIr → ℕ → Option ℕ
next_of states s = elim (get_elem? states s) [ none ↦ none | some st ↦ st.default_child ]

-- The defaults from `s` end after `k` edges.
pub data Ends (states : List StateIr) : ℕ → ℕ → Type 0 where
  stop : {s : ℕ} → next_of states s ≡ none → Ends states s 0
  go : {s c k : ℕ} → next_of states s ≡ some c → Ends states c k → Ends states s (suc k)

-- A walk of one default edge or more.
pub data Walk (states : List StateIr) : ℕ → ℕ → Type 0 where
  once : {s t : ℕ} → next_of states s ≡ some t → Walk states s t
  then : {s c t : ℕ} → Walk states s c → next_of states c ≡ some t → Walk states s t

pub Color-cases : (c : Color) → (c ≡ white) ⊎ (c ≡ gray) ⊎ (c ≡ black)
Color-cases white = inl refl
Color-cases gray = inr (inl refl)
Color-cases black = inr (inr refl)

-- The defaults from `s` end, in fewer than `bound` edges and states still white.
abbrev pub EndsBelow : List StateIr → List Color → ℕ → ℕ → Type 0
EndsBelow states color bound s = (k : ℕ) × Ends states s k × (k + whites color < bound)

-- The walk stands at `cur`, and its chain is what is gray.
pub record Chasing (states : List StateIr) (cur : ℕ) (color : List Color) (chain : List ℕ)
    (bound : ℕ) : Type 0 where
  pub size : length color ≡ length states
  pub inside : cur < length states
  pub blacks : (s : ℕ) → get_elem? color s ≡ some black → EndsBelow states color bound s
  pub grays : (s : ℕ) → get_elem? color s ≡ some gray → In s chain
  pub behind : (s : ℕ) → In s chain → (s < length states) × Walk states s cur
  pub few : whites color ≤ bound

-- The chain ends, and the states that were painted gray are new in it.
pub record Ended (states : List StateIr) (cur : ℕ) (color : List Color) (chain : List ℕ) (bound : ℕ)
    (r : Result (List Color × List ℕ)) : Type 0 where
  pub color' : List Color
  pub fresh : List ℕ
  pub result : r ≡ accepted (color', chain ++ fresh)
  pub size : length color' ≡ length color
  pub fewer : whites color' ≤ whites color
  pub ending : EndsBelow states color' bound cur
  pub fresh_end : (s : ℕ) → In s fresh → EndsBelow states color' bound s
  pub blacks : (s : ℕ) → get_elem? color' s ≡ some black → get_elem? color s ≡ some black
  pub grays :
      (s : ℕ) → get_elem? color' s ≡ some gray → (get_elem? color s ≡ some gray) ⊎ In s fresh

-- A state reaches itself, and the error says so.
abbrev pub Cycles {ℓ} : List StateIr → {A : Type ℓ} → Result A → Type ℓ
Cycles states r =
    (names : List String) × (s : ℕ) × (r ≡ refused (default_cycle names))
    × (s < length states)
    × Walk states s s

report_cycle-Cycles :
    (states : List StateIr) (cur : ℕ) (color : List Color) (chain : List ℕ) (bound : ℕ)
    → Chasing states cur color chain bound
    → In cur chain
    → Cycles states (report_cycle states cur chain)
unfolding report_cycle
report_cycle-Cycles states cur color chain bound h i =
    let (p, at) = index_of-some cur 0 chain i in
    let (names, e) =
      names_of-some states (drop p chain) (λ s d. (h.behind s (In-drop s p chain d)).0) in
    (
      names,
      cur,
      some_case (index_of (λ x. x == cur) 0 chain)
          (λ (r : Result (List Color × List ℕ)). r ≡ refused (default_cycle names)) _ _ p at (rw e),
      h.inside,
      (h.behind cur i).1,
    )

module _ (states : List StateIr)
    (known : (s c : ℕ) → next_of states s ≡ some c → c < length states) where
  -- The walk after one more state is painted.
  onward :
      (cur next : ℕ) (color : List Color) (chain : List ℕ) (bound : ℕ)
      → Chasing states cur color chain bound
      → get_elem? color cur ≡ some white
      → next_of states cur ≡ some next
      → Chasing states next (set color cur gray) (chain ++ cur ∷ []) (bound - 1)
  onward cur next color chain bound h w e = record {
    size = length-set color cur gray ∙ h.size;
    inside = known cur next e;
    blacks = λ s b. elim (get_elem?-set color cur gray s b) [
      | inl (here, same) ↦ cc
      | inr (other, old) ↦
          let (k, ends, below) = h.blacks s old in
          (k, ends, omega (arith, below, whites-gray color cur w))
    ];
    grays = λ s g. elim (get_elem?-set color cur gray s g) [
      | inl (here, same) ↦ In-snoc s cur chain here
      | inr (other, old) ↦ In-append_left s chain (cur ∷ []) (h.grays s old)
    ];
    behind = λ s i. elim (In-append_cases s chain (cur ∷ []) i) [
      | inl before ↦ let (lt, walk) = h.behind s before in (lt, then walk e)
      | inr last ↦ elim last [
        | inl same ↦ (omega (arith, h.inside), once (ap (next_of states) same ∙ e))
        | inr out ↦ absurd out
      ]
    ];
    few = omega (arith, h.few, whites-gray color cur w);
  }

  -- What the rest of the chain finds, seen from the state before.
  extended :
      (cur next : ℕ) (color : List Color) (chain : List ℕ) (bound : ℕ)
      (r : Result (List Color × List ℕ))
      → get_elem? color cur ≡ some white
      → whites color ≤ bound
      → next_of states cur ≡ some next
      → Ended states next (set color cur gray) (chain ++ cur ∷ []) (bound - 1) r
      → Ended states cur color chain bound r
  extended cur next color chain bound r w few e t =
      let (k, ends, below) = t.ending in
      let here : EndsBelow states t.color' bound cur =
        (suc k, go e ends, omega (arith, below, whites-gray color cur w)) in
      record {
        color' = t.color';
        fresh = cur ∷ t.fresh;
        result =
            t.result ∙ ap (λ l. accepted (t.color', l)) (append_assoc chain (cur ∷ []) t.fresh);
        size = t.size ∙ length-set color cur gray;
        fewer = omega (arith, t.fewer, whites-gray color cur w);
        ending = here;
        fresh_end = λ s i. elim i [
          | inl same ↦ subst (EndsBelow states t.color' bound) (sym same) here
          | inr later ↦
              let (k', ends', below') = t.fresh_end s later in (k', ends', omega (arith, below'))
        ];
        blacks = λ s b. elim (get_elem?-set color cur gray s (t.blacks s b)) [
          | inl (at, same) ↦ cc
          | inr (other, old) ↦ old
        ];
        grays = λ s g. elim (t.grays s g) [
          | inr later ↦ inr (inr later)
          | inl before ↦ elim (get_elem?-set color cur gray s before) [
            | inl (at, same) ↦ inr (inl at)
            | inr (other, old) ↦ inl old
          ]
        ];
      }

  next_of-eq :
      (s : ℕ) {st : StateIr} → get_elem? states s ≡ some st → next_of states s ≡ st.default_child
  unfolding next_of
  next_of-eq s {st} at = some_case (get_elem? states s) (λ o. o ≡ st.default_child) _ _ st at refl

  -- A state that has no default ends the chain.
  stops_here :
      (cur : ℕ) (color : List Color) (chain : List ℕ) (bound : ℕ)
      → Chasing states cur color chain bound
      → get_elem? color cur ≡ some white
      → next_of states cur ≡ none
      → Ended states cur color chain bound (accepted (set color cur gray, chain ++ cur ∷ []))
  stops_here cur color chain bound h w e =
      let here : EndsBelow states (set color cur gray) bound cur =
        (0, stop e, omega (arith, h.few, whites-gray color cur w)) in
      record {
        color' = set color cur gray;
        fresh = cur ∷ [];
        result = refl;
        size = length-set color cur gray;
        fewer = omega (arith, whites-gray color cur w);
        ending = here;
        fresh_end = λ s i. elim i [
          | inl same ↦ subst (EndsBelow states (set color cur gray) bound) (sym same) here
          | inr out ↦ absurd out
        ];
        blacks = λ s b. elim (get_elem?-set color cur gray s b) [
          | inl (at, same) ↦ cc
          | inr (other, old) ↦ old
        ];
        grays = λ s g. elim (get_elem?-set color cur gray s g) [
          | inl (at, same) ↦ inr (inl at)
          | inr (other, old) ↦ inl old
        ];
      }

  -- A chain that meets a state that is done.
  joined :
      (cur : ℕ) (color : List Color) (chain : List ℕ) (bound : ℕ)
      → Chasing states cur color chain bound
      → get_elem? color cur ≡ some black
      → Ended states cur color chain bound (accepted (color, chain))
  joined cur color chain bound h b = record {
    color' = color;
    fresh = [];
    result = ap (λ l. accepted (color, l)) (sym (append-nil chain));
    size = refl;
    fewer = omega arith;
    ending = h.blacks cur b;
    fresh_end = λ s i. absurd i;
    blacks = λ s x. x;
    grays = λ s g. inl g;
  }

  pub chase-Ended :
      (fuel cur : ℕ) (color : List Color) (chain : List ℕ) (bound : ℕ)
      → whites color < fuel
      → Chasing states cur color chain bound
      → Ended states cur color chain bound (chase states fuel cur color chain)
        ⊎ Cycles states (chase states fuel cur color chain)
  unfolding chase
  chase-Ended zero cur color chain bound enough h = absurd (omega arith)
  chase-Ended (suc fuel) cur color chain bound enough h =
      let P = λ (r : Result (List Color × List ℕ)).
        Ended states cur color chain bound r ⊎ Cycles states r in
      let (c, at) = get_elem?-some color cur (omega (arith, h.size, h.inside)) in
      let (st, found) = get_elem?-some states cur h.inside in
      elim (Color-cases c) [
        | inl w ↦
            let is_white : get_elem? color cur ≡ some white = at ∙ ap some w in
            some_case (get_elem? color cur) P _ _ white is_white (
              some_case (get_elem? states cur) P _ _ st found
                (elim (Option-cases st.default_child) [
                  | inl e ↦
                      none_case st.default_child P _ _ e (
                        inl
                          (stops_here cur color chain bound h is_white (next_of-eq cur found ∙ e)))
                  | inr (next, e) ↦
                      let edge = next_of-eq cur found ∙ e in
                      some_case st.default_child P _ _ next e
                        (elim (chase-Ended fuel next (set color cur gray) (chain ++ cur ∷ [])
                          (bound - 1) (omega (arith, whites-gray color cur is_white))
                          (onward cur next color chain bound h is_white edge)) [
                            | inl ended ↦
                                inl
                                  (extended cur next color chain bound _ is_white h.few edge ended)
                            | inr cycles ↦ inr cycles
                          ])
                ]))
        | inr (inl g) ↦ some_case (get_elem? color cur) P _ _ gray (at ∙ ap some g) (
            inr (report_cycle-Cycles states cur color chain bound h (h.grays cur (at ∙ ap some g))))
        | inr (inr b) ↦
            some_case (get_elem? color cur) P _ _ black (at ∙ ap some b)
              (inl (joined cur color chain bound h (at ∙ ap some b)))
      ]
