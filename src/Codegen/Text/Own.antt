-- ===== src/Codegen/Text/Own.antt =====
-- The lines that render_state of hsmc-macros/src/codegen.rs writes of a state itself.
use Prim.Native.Char.{code}
use Prim.Native.String.{String, ◌++◌ as joined}
use text.Mathlib.TextLemmas.{
  nil-append, cons-append, append_assoc as join_assoc, append-nil as join-nil,
}
use hsmc.Codegen.Text.{
  push_all, render_actions, render_fields, render_durings, render_handlers, render_own,
  before_colon, trigger_text, target_text,
}
use hsmc.Codegen.Text.Drawing.{
  concat, written, action_line, comma_joined, during_line, trigger_part, handler_line, item_lines,
  head_line, indented,
}
use hsmc.Input.{During, Trigger, Handler, Items}
use hsmc.Ir.{Ir, StateIr, ActionIr, HandlerIr, HandlerKindIr, TriggerIr}
use hsmc.Lower.Bodies.{has_name}
use hsmc.Lower.Bodies.Interned.{tables}
use hsmc.Lower.Bodies.Means.{Stand, TriggerMeans, KindMeans, HandlersMean, StateMeans}
use hsmc.Lower.Interning.{full_key}
use hsmc.Prelude.{
  ℕ, zero, suc, ◌+◌, ltb, ◌==◌, ◌≡◌, ◌∙◌, ap, sym, refl, Bool, true, false, some, ◌>>=◌, List, [],
  ◌∷◌, ◌++◌, map, get_elem?, if◌then◌else◌, arith,
}

pub written-append :
    (out : String) (xs ys : List String) → written out (xs ++ ys) ≡ written (written out xs) ys
written-append out [] ys = refl
written-append out (x ∷ xs) ys = written-append (joined out (joined x "\n")) xs ys

-- What is pushed piece by piece is a line.
pub push_all-line :
    (out : String) (xs : List String)
    → push_all out (xs ++ "\n" ∷ []) ≡ joined out (joined (concat xs) "\n")
push_all-line out [] = ap (joined out) (sym (nil-append "\n"))
push_all-line out (x ∷ xs) =
    push_all-line (joined out x) xs
    ∙ join_assoc out x (joined (concat xs) "\n")
    ∙ ap (joined out) (sym (join_assoc x (concat xs) "\n"))

pub push_all-concat : (out : String) (xs : List String) → push_all out xs ≡ joined out (concat xs)
push_all-concat out [] = sym (join-nil out)
push_all-concat out (x ∷ xs) = push_all-concat (joined out x) xs ∙ join_assoc out x (concat xs)

map-found :
    {A B : Type 0} (f : A → B) (xs : List A) (i : ℕ) {b : B}
    → get_elem? (map f xs) i ≡ some b
    → (a : A) × (get_elem? xs i ≡ some a) × (f a ≡ b)
map-found f [] i h = cc
map-found f (x ∷ xs) zero h = (x, refl, cc)
map-found f (x ∷ xs) (suc i) h = map-found f xs i h

pub render_actions-lines :
    (ir : Ir) (prefix label : String) (is : List ℕ) (ns : List String) (out : String)
    → Stand (tables ir).actions is ns
    → render_actions ir prefix label is out ≡ some (written out (map (action_line prefix label) ns))
render_actions-lines ir prefix label [] [] out h = refl
render_actions-lines ir prefix label [] (n ∷ ns) out h = absurd h
render_actions-lines ir prefix label (i ∷ is) [] out h = absurd h
render_actions-lines ir prefix label (i ∷ is) (n ∷ ns) out (at, rest) =
    let (a, found, called) = map-found (λ (x : ActionIr). x.name) ir.actions i at in
    ap
      (λ o. o >>= (λ (x : ActionIr).
        render_actions ir prefix label is (push_all out (prefix ∷ label ∷ x.name ∷ "\n" ∷ []))))
      found
    ∙ ap (λ x. render_actions ir prefix label is (push_all out (prefix ∷ label ∷ x ∷ "\n" ∷ [])))
        called
    ∙ ap (render_actions ir prefix label is) (push_all-line out (prefix ∷ label ∷ n ∷ []))
    ∙ render_actions-lines ir prefix label is ns
        (joined out (joined (action_line prefix label n) "\n")) rest

-- The fields after the first one.
later_fields :
    (i : ℕ) (f : String) (fs : List String) (out : String)
    → render_fields (suc i) fs (joined out f) ≡ joined out (comma_joined (f ∷ fs))
later_fields i f [] out = refl
later_fields i f (g ∷ fs) out =
    let next : suc i + 1 ≡ suc (suc i) = omega arith in
    let positive : ltb 0 (suc i) ≡ true = ground arith in
    ap
      (λ b.
        render_fields (suc i + 1) fs
          (joined (if b then joined (joined out f) ", " else joined out f) g))
      positive
    ∙ ap (λ k. render_fields k fs (joined (joined (joined out f) ", ") g)) next
    ∙ later_fields (suc i) g fs (joined (joined out f) ", ")
    ∙ join_assoc (joined out f) ", " (comma_joined (g ∷ fs))
    ∙ join_assoc out f (joined ", " (comma_joined (g ∷ fs)))

render_fields-joined :
    (fs : List String) (out : String) → render_fields 0 fs out ≡ joined out (comma_joined fs)
render_fields-joined [] out = sym (join-nil out)
render_fields-joined (f ∷ fs) out = later_fields 0 f fs out

pub render_durings-lines :
    (prefix : String) (ds : List During) (out : String)
    → render_durings prefix ds out ≡ written out (map (during_line prefix) ds)
render_durings-lines prefix [] out = refl
render_durings-lines prefix (d ∷ ds) out =
    let front = prefix ∷ "• during: " ∷ d.fn_name ∷ "(" ∷ [] in
    ap (λ o. render_durings prefix ds (joined o ")\n"))
      (render_fields-joined d.fields (push_all out front))
    ∙ ap (render_durings prefix ds)
        (sym (join_assoc (joined (push_all out front) (comma_joined d.fields)) ")" "\n"))
    ∙ ap (render_durings prefix ds) (
        push_all-line out
          (prefix ∷ "• during: " ∷ d.fn_name ∷ "(" ∷ comma_joined d.fields ∷ ")" ∷ []))
    ∙ render_durings-lines prefix ds (joined out (joined (during_line prefix d) "\n"))

-- A key is shown up to its first colon; what says if it repeats comes after one.
before_colon-joined : (k t : String) → before_colon (joined k (String.◌∷◌ ":" t)) ≡ before_colon k
unfolding before_colon
before_colon-joined String.[] t = ap before_colon (nil-append (String.◌∷◌ ":" t))
before_colon-joined (String.◌∷◌ c k) t =
    ap before_colon (cons-append c k (String.◌∷◌ ":" t))
    ∙ ap (λ r. if code c == 58 then String.[] else String.◌∷◌ c r) (before_colon-joined k t)

before_colon-full_key :
    (key : String) (repeat : Bool) → before_colon (full_key key repeat) ≡ before_colon key
before_colon-full_key key true = before_colon-joined key "true"
before_colon-full_key key false = before_colon-joined key "false"

trigger_text-part :
    (ir : Ir) (t : Trigger) (g : TriggerIr)
    → TriggerMeans (tables ir) t g
    → trigger_text ir g ≡ some (trigger_part t)
trigger_text-part ir (Trigger.event v p) (TriggerIr.event id v' p') h =
    ap (λ n. some (push_all "on(" (n ∷ ")" ∷ []))) h.1
    ∙ ap (λ x. some x) (push_all-concat "on(" (v ∷ ")" ∷ []))
trigger_text-part ir (Trigger.event v p) (TriggerIr.duration id) h = absurd h
trigger_text-part ir (Trigger.duration e key r) (TriggerIr.event id v p) h = absurd h
trigger_text-part ir (Trigger.duration e key r) (TriggerIr.duration id) (d, at, keyed, mode) =
    let shown = λ (b : Bool) (k : String).
      push_all "on(" ((if b then "every" else "after") ∷ " " ∷ before_colon k ∷ ")" ∷ []) in
    let part : shown d.repeat d.key ≡ trigger_part (Trigger.duration e key r) =
      ap (λ b. shown b d.key) mode
      ∙ ap (shown r) keyed
      ∙ ap (λ k. push_all "on(" ((if r then "every" else "after") ∷ " " ∷ k ∷ ")" ∷ []))
          (before_colon-full_key key r)
      ∙ push_all-concat "on("
          ((if r then "every" else "after") ∷ " " ∷ before_colon key ∷ ")" ∷ []) in
    rw at (ap (λ x. some x) part)

target_text-part :
    (t : Ir) (names : List String) (target : String) (k : HandlerKindIr)
    → KindMeans (tables t) names target k
    → target_text k ≡ joined (if has_name target names then "→ " else "⇒ ") target
target_text-part t names target (HandlerKindIr.transition name slot) (state, same) =
    rw state (ap (joined "→ ") same)
target_text-part t names target (HandlerKindIr.action id name) (handler, same, at) =
    rw handler (ap (joined "⇒ ") same)

render_handlers-lines :
    (ir : Ir) (prefix : String) (names : List String) (hs : List Handler) (gs : List HandlerIr)
    (out : String)
    → HandlersMean (tables ir) names hs gs
    → render_handlers ir prefix gs out ≡ some (written out (map (handler_line prefix names) hs))
render_handlers-lines ir prefix names [] [] out m = refl
render_handlers-lines ir prefix names [] (g ∷ gs) out m = absurd m
render_handlers-lines ir prefix names (h ∷ hs) [] out m = absurd m
render_handlers-lines ir prefix names (h ∷ hs) (g ∷ gs) out ((trig, kind, index), rest) =
    let pushed = λ (t k : String). push_all out (prefix ∷ "• " ∷ t ∷ " " ∷ k ∷ "\n" ∷ []) in
    ap (λ o. o >>= (λ (t : String). render_handlers ir prefix gs (pushed t (target_text g.kind))))
      (trigger_text-part ir h.trigger g.trigger trig)
    ∙ ap (λ k. render_handlers ir prefix gs (pushed (trigger_part h.trigger) k))
        (target_text-part ir names h.target g.kind kind)
    ∙ ap (render_handlers ir prefix gs) (
        push_all-line out (
          prefix
          ∷ "• "
          ∷ trigger_part h.trigger
          ∷ " "
          ∷ joined (if has_name h.target names then "→ " else "⇒ ") h.target
          ∷ []))
    ∙ render_handlers-lines ir prefix names hs gs
        (joined out (joined (handler_line prefix names h) "\n")) rest

-- The line with the name.
head_text : String → Bool → Bool → String → String → String
head_text prefix last marked name out =
    let branch = push_all out (prefix ∷ (if last then "└── " else "├── ") ∷ []) in
    push_all (if marked then joined branch "[default] " else branch) (name ∷ "\n" ∷ [])

head_text-line :
    (prefix : String) (last marked : Bool) (name out : String)
    → head_text prefix last marked name out
      ≡ joined out (joined (head_line prefix last marked name) "\n")
unfolding head_text
head_text-line prefix last true name out =
    push_all-line out (prefix ∷ (if last then "└── " else "├── ") ∷ "[default] " ∷ name ∷ [])
head_text-line prefix last false name out =
    push_all-line out (prefix ∷ (if last then "└── " else "├── ") ∷ name ∷ [])
    ∙ ap
        (λ n. joined out (joined (joined prefix (joined (if last then "└── " else "├── ") n)) "\n"))
        (sym (nil-append (joined name "")))

pub render_own-lines :
    (ir : Ir) (names : List String) (items : Items) (st : StateIr) (prefix : String)
    (last marked : Bool) (out : String)
    → StateMeans (tables ir) names items st
    → render_own ir st prefix last marked out
      ≡ some (
          written out
            (head_line prefix last marked st.name ∷ item_lines (indented prefix last) names items))
unfolding head_text
render_own-lines ir names items st prefix last marked out m =
    let p = indented prefix last in
    let entered = map (action_line p "• entry: ") items.entries in
    let left = map (action_line p "• exit: ") items.exits in
    let run = map (during_line p) items.durings in
    let handled = map (handler_line p names) items.handlers in
    let finish = λ (o : String). render_handlers ir p st.handlers (render_durings p st.durings o) in
    let leave = λ (o : String). render_actions ir p "• exit: " st.exits o >>= finish in
    let start = joined out (joined (head_line prefix last marked st.name) "\n") in
    ap (λ o. render_actions ir p "• entry: " st.entries o >>= leave)
      (head_text-line prefix last marked st.name out)
    ∙ ap (λ o. o >>= leave)
        (render_actions-lines ir p "• entry: " st.entries items.entries start m.entries)
    ∙ ap (λ o. o >>= finish)
        (render_actions-lines ir p "• exit: " st.exits items.exits (written start entered) m.exits)
    ∙ ap
        (λ ds.
          render_handlers ir p st.handlers
            (render_durings p ds (written (written start entered) left)))
        m.durings
    ∙ ap (render_handlers ir p st.handlers)
        (render_durings-lines p items.durings (written (written start entered) left))
    ∙ render_handlers-lines ir p names items.handlers st.handlers
        (written (written (written start entered) left) run) m.handlers
    ∙ ap (λ x. some x)
        (sym (
          written-append start (entered ++ left ++ run) handled
          ∙ ap (λ o. written o handled)
              (written-append start (entered ++ left) run
                ∙ ap (λ o. written o run) (written-append start entered left))))
