-- ===== src/Codegen/Generate/Groups.antt =====
-- The targets and the arms in the tables of hsmc-macros/src/codegen.rs are those of the states.
use hsmc.Codegen.Dispatch.{
  Slot, StateHandlers, get, update, insert_handler, sort_handlers, add_kind, aggregate, per_state,
}
use hsmc.Codegen.Dispatch.Nearest.{first_handled, handled}
use hsmc.Codegen.Generate.{
  Groups, group_key, get_group, update_group, same_pair, group_handlers, state_arm, lookup_handlers,
}
use hsmc.Ir.{StateIr, HandlerIr, HandlerKindIr, TriggerIr}
use hsmc.Journal.Replay.{In}
use hsmc.Lower.Resolve.Targets.{IsKnownKind, IsKnown}
use hsmc.Machine.Sound.{IsTarget}
use hsmc.Prelude.{
  ℕ, ◌≡◌, ◌==◌, leb, subst, refl, inl, inr, Bool-cases, if_cases, none, some, Option-cases, List,
  [], ◌∷◌, get_elem?, All, All-get_elem?, arith,
}

-- What holds of both cases of a trigger.
trigger_case :
    {B : Type 0} (t : TriggerIr) (P : B → Type 0) (f : ℕ → B) (x : B)
    → ((id : ℕ) → P (f id))
    → P x
    → P (elim t [ TriggerIr.event id variant payload ↦ f id | TriggerIr.duration id ↦ x ])
trigger_case (TriggerIr.event id variant payload) P f x h k = h id
trigger_case (TriggerIr.duration id) P f x h k = k

-- A state that an arm belongs to is one of the states.
pub state_arm-All :
    (P : StateIr → Type 0) (states : List StateIr) (id : ℕ) (st : StateIr)
    → All P states
    → state_arm id states ≡ some st
    → P st
state_arm-All P [] id st a e = cc
state_arm-All P (s ∷ rest) id st a e = elim (Bool-cases (s.id == id)) [
  | inl hit ↦ let same : s ≡ st = ground arith in subst P same a.0
  | inr miss ↦ state_arm-All P rest id st a.1 (ground arith)
]

module _ (n : ℕ) where
  abbrev KnownHandler : HandlerIr → Type 0
  KnownHandler h = IsKnownKind n h.kind

  -- The target of a slot, where it has one, is a state.
  abbrev KnownSlot : Slot → Type 0
  KnownSlot slot = IsTarget n slot.1

  insert_handler-All :
      (h : HandlerIr) (hs : List HandlerIr)
      → KnownHandler h
      → All KnownHandler hs
      → All KnownHandler (insert_handler h hs)
  insert_handler-All h [] k ks = (k, tt)
  insert_handler-All h (x ∷ xs) k ks =
      if_cases (leb h.decl_index x.decl_index) (All KnownHandler) _ _ (λ before. (k, ks))
        (λ after. (ks.0, insert_handler-All h xs k ks.1))

  sort_handlers-All :
      (hs : List HandlerIr) → All KnownHandler hs → All KnownHandler (sort_handlers hs)
  sort_handlers-All [] ks = tt
  sort_handlers-All (h ∷ hs) ks =
      insert_handler-All h (sort_handlers hs) ks.0 (sort_handlers-All hs ks.1)

  add_kind-Known :
      (k : HandlerKindIr) (slot : Slot)
      → IsKnownKind n k
      → KnownSlot slot
      → KnownSlot (add_kind k slot)
  add_kind-Known (HandlerKindIr.action aid name) slot k s = s
  add_kind-Known (HandlerKindIr.transition name (some tid)) slot k s = k
  add_kind-Known (HandlerKindIr.transition name none) slot k s = s

  update-All :
      (key : ℕ) (f : Slot → Slot) (acc : StateHandlers)
      → ((slot : Slot) → KnownSlot slot → KnownSlot (f slot))
      → All (λ (e : ℕ × Slot). KnownSlot e.1) acc
      → All (λ (e : ℕ × Slot). KnownSlot e.1) (update key f acc)
  update-All key f [] keep a = (keep ([], none) tt, tt)
  update-All key f ((k', v) ∷ rest) keep a =
      if_cases (key == k') (All (λ (e : ℕ × Slot). KnownSlot e.1)) _ _ (λ hit. (keep v a.0, a.1))
        (λ miss. (a.0, update-All key f rest keep a.1))

  aggregate-All :
      (hs : List HandlerIr) (acc : StateHandlers)
      → All KnownHandler hs
      → All (λ (e : ℕ × Slot). KnownSlot e.1) acc
      → All (λ (e : ℕ × Slot). KnownSlot e.1) (aggregate hs acc)
  aggregate-All [] acc k a = a
  aggregate-All (h ∷ hs) acc k a =
      trigger_case h.trigger (All (λ (e : ℕ × Slot). KnownSlot e.1)) _ _
        (λ id.
          aggregate-All hs (update id (add_kind h.kind) acc) k.1
            (update-All id (add_kind h.kind) acc (λ slot s. add_kind-Known h.kind slot k.0 s) a))
        (aggregate-All hs acc k.1 a)

  get-Known :
      (key : ℕ) (acc : StateHandlers) (slot : Slot)
      → All (λ (e : ℕ × Slot). KnownSlot e.1) acc
      → get key acc ≡ some slot
      → KnownSlot slot
  get-Known key [] slot a e = cc
  get-Known key ((k', v) ∷ rest) slot a e = elim (Bool-cases (key == k')) [
    | inl hit ↦ let same : v ≡ slot = ground arith in subst KnownSlot same a.0
    | inr miss ↦ get-Known key rest slot a.1 (ground arith)
  ]

  update_group-All :
      (key : ℕ × ℕ) (f : Slot → Slot) (acc : Groups)
      → ((slot : Slot) → KnownSlot slot → KnownSlot (f slot))
      → All (λ (e : (ℕ × ℕ) × Slot). KnownSlot e.1) acc
      → All (λ (e : (ℕ × ℕ) × Slot). KnownSlot e.1) (update_group key f acc)
  update_group-All key f [] keep a = (keep ([], none) tt, tt)
  update_group-All key f ((k', v) ∷ rest) keep a =
      if_cases (same_pair key k') (All (λ (e : (ℕ × ℕ) × Slot). KnownSlot e.1)) _ _
        (λ hit. (keep v a.0, a.1)) (λ miss. (a.0, update_group-All key f rest keep a.1))

  group_handlers-All :
      (hs : List HandlerIr) (acc : Groups)
      → All KnownHandler hs
      → All (λ (e : (ℕ × ℕ) × Slot). KnownSlot e.1) acc
      → All (λ (e : (ℕ × ℕ) × Slot). KnownSlot e.1) (group_handlers hs acc)
  group_handlers-All [] acc k a = a
  group_handlers-All (h ∷ hs) acc k a =
      group_handlers-All hs (update_group (group_key h.trigger) (add_kind h.kind) acc) k.1 (
        update_group-All (group_key h.trigger) (add_kind h.kind) acc
          (λ slot s. add_kind-Known h.kind slot k.0 s) a)

  get_group-Known :
      (key : ℕ × ℕ) (acc : Groups) (slot : Slot)
      → All (λ (e : (ℕ × ℕ) × Slot). KnownSlot e.1) acc
      → get_group key acc ≡ some slot
      → KnownSlot slot
  get_group-Known key [] slot a e = cc
  get_group-Known key ((k', v) ∷ rest) slot a e = elim (Bool-cases (same_pair key k')) [
    | inl hit ↦ let same : v ≡ slot = ground arith in subst KnownSlot same a.0
    | inr miss ↦ get_group-Known key rest slot a.1 (ground arith)
  ]

  handled-Known :
      (states : List StateIr) (ev s : ℕ) (slot : Slot)
      → All (IsKnown n) states
      → handled states ev s ≡ some slot
      → IsTarget n slot.1
  unfolding per_state
  handled-Known states ev s slot known e = elim (Option-cases (get_elem? states s)) [
    | inl out ↦ absurd (let gone : none ≡ some slot = rw out at e in cc)
    | inr (st, at) ↦
        let found : get ev (aggregate (sort_handlers st.handlers) []) ≡ some slot = rw at at e in
        get-Known ev (aggregate (sort_handlers st.handlers) []) slot
          (aggregate-All (sort_handlers st.handlers) []
            (sort_handlers-All st.handlers (All-get_elem? (IsKnown n) states s st known at).0) tt)
          found
  ]

  -- The first state of a path that handles an event is on the path, and leads to a state.
  pub first_handled-Known :
      (states : List StateIr) (ev : ℕ) (path : List ℕ) (s : ℕ) (slot : Slot)
      → All (IsKnown n) states
      → first_handled states ev path ≡ some (s, slot)
      → In s path × IsTarget n slot.1
  first_handled-Known states ev [] s slot known e = cc
  first_handled-Known states ev (p ∷ path) s slot known e =
      elim (Option-cases (handled states ev p)) [
        | inl none_here ↦
            let (i, t) = first_handled-Known states ev path s slot known (ground arith) in
            (inr i, t)
        | inr (found, here) ↦
            let same : (p, found) ≡ (s, slot) = ground arith in
            subst (λ (q : ℕ × Slot). In q.0 (p ∷ path) × IsTarget n q.1.1) same
              (inl refl, handled-Known states ev p found known here)
      ]

  pub lookup_handlers-Known :
      (states : List StateIr) (id kind trigger : ℕ) (slot : Slot)
      → All (IsKnown n) states
      → lookup_handlers states id kind trigger ≡ some slot
      → IsTarget n slot.1
  unfolding lookup_handlers
  lookup_handlers-Known states id kind trigger slot known e =
      elim (Option-cases (state_arm id states)) [
        | inl no_arm ↦ ground arith
        | inr (st, arm) ↦
            get_group-Known (kind, trigger) (group_handlers (sort_handlers st.handlers) []) slot
              (group_handlers-All (sort_handlers st.handlers) []
                (sort_handlers-All st.handlers (state_arm-All (IsKnown n) states id st known arm).0)
                tt)
              (ground arith)
      ]
