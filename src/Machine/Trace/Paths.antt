-- ===== src/Machine/Trace/Paths.antt =====
-- Exit paths, enter paths and `apply_path` of hsmc-macros/src/codegen.rs on the active path.
use hsmc.Codegen.Walks.Tree.{IsTree, chain, chain-root, chain-step}
use hsmc.Codegen.Walks.Correct.{Moves}
use hsmc.Journal.Replay.{head?}
use hsmc.Machine.{Env, Machine}
use hsmc.Machine.States.{enter_state_no_descent, enter_states, exit_state, exit_states}
use hsmc.Machine.Transitions.{is_empty, path_slices, walk_path, apply_path}
use hsmc.Machine.Trace.{Goes, Goes-same, Goes-trans, Sits}
use hsmc.Machine.Trace.States.{Leaves, enter_state_lem, exit_state_lem}
use hsmc.Prelude.{
  subst, ◌≢◌, ◌⊎◌, inl, inr, sym, ap, append_assoc, reverse-append, zero, suc, ◌<◌, arith,
  Option-cases, not, ℕ, Bool, Option, List, [], ◌∷◌, ◌++◌, ◌≡◌, ◌∙◌, some, false, true, refl,
  reverse, if_false,
}

-- Every state stands on its parent.
abbrev pub IsPath : (ℕ → Option ℕ) → List ℕ → Type 0
IsPath parent [] = Unit
IsPath parent (s ∷ rest) = (parent s ≡ head? rest) × IsPath parent rest

-- The active path after states are entered on `kept`, in order.
abbrev pub stack : List ℕ → List ℕ → List ℕ
stack [] kept = kept
stack (s ∷ rest) kept = stack rest (s ∷ kept)

stack-IsPath :
    (parent : ℕ → Option ℕ) (new kept : List ℕ)
    → IsPath parent (stack new kept)
    → IsPath parent kept
stack-IsPath parent [] kept h = h
stack-IsPath parent (s ∷ rest) kept h = (stack-IsPath parent rest (s ∷ kept) h).1

abbrev no_states : List ℕ
no_states = []

module _ {Ev Ctx : Type 0} (env : Env Ev Ctx) (parent : ℕ → Option ℕ) where
  pub exit_states_lem :
      (gone kept : List ℕ) (m : Machine Ev Ctx)
      → Sits env (gone ++ kept) m
      → Leaves env parent (gone ++ kept) m (exit_states env gone m) kept
  unfolding exit_states
  exit_states_lem [] kept m h = (Goes-same env parent kept refl (λ q. q), refl, h)
  exit_states_lem (sid ∷ rest) kept m h =
      let (g, c, s) = exit_state_lem env parent sid (rest ++ kept) m h in
      let (g', c', s') = exit_states_lem rest kept (exit_state env sid m) s in
      (Goes-trans env parent g g', c' ∙ c, s')

  kept_current :
      (path : List ℕ) (m : Machine Ev Ctx)
      → (no_states ≢ []) ⊎ (m.current ≡ head? path)
      → m.current ≡ head? path
  kept_current path m (inl differ) = absurd (differ refl)
  kept_current path m (inr same) = same

  -- Where entering a path leads.
  abbrev Builds : List ℕ → List ℕ → Machine Ev Ctx → Machine Ev Ctx → List ℕ → Type 0
  Builds new path m m' path' =
      Goes env parent path m m' path'
      × Sits env path' m'
      × ((new ≢ []) ⊎ (m.current ≡ head? path) → m'.current ≡ head? path')

  enter_states_lem :
      (new path : List ℕ) (m : Machine Ev Ctx)
      → (env.has_timers ≡ false → (s : ℕ) → env.owned_timers s ≡ [])
      → Sits env path m
      → IsPath parent (stack new path)
      → ((enter_states env new m).1 ≡ false)
        × Builds new path m (enter_states env new m).0 (stack new path)
  unfolding enter_states
  enter_states_lem [] path m unarmed h p =
      (refl, (Goes-same env parent path refl (λ q. q), h, kept_current path m))
  enter_states_lem (sid ∷ rest) path m unarmed h p =
      let top = (stack-IsPath parent rest (sid ∷ path) p).0 in
      let (g, c, s) = enter_state_lem env parent sid path m (λ off. unarmed off sid) h top in
      let m1 = enter_state_no_descent env sid m in
      let (ends, b) = enter_states_lem rest (sid ∷ path) m1 unarmed s p in
      if_false m1.terminated
        (λ (r : Machine Ev Ctx × Bool).
          (r.1 ≡ false) × Builds (sid ∷ rest) path m r.0 (stack rest (sid ∷ path)))
        _ _ s.live (ends, (Goes-trans env parent g b.0, b.1, λ q. b.2 (inr c)))

  -- Where `walk_path` leads, and its flag.
  abbrev Walks : List ℕ → ℕ → Machine Ev Ctx → Machine Ev Ctx × Bool → List ℕ → Bool → Type 0
  Walks path to m r path' newly =
      (r.1 ≡ newly)
      × Goes env parent path m r.0 path'
      × (r.0.current ≡ some to)
      × Sits env path' r.0

  walk_path_lem :
      (exit enter kept : List ℕ) (to : ℕ) (m : Machine Ev Ctx)
      → (env.has_timers ≡ false → (s : ℕ) → env.owned_timers s ≡ [])
      → Sits env (exit ++ kept) m
      → IsPath parent (stack enter kept)
      → head? (stack enter kept) ≡ some to
      → Walks
          (exit ++ kept)
          to
          m
          (walk_path env exit enter to m)
          (stack enter kept)
          (not (is_empty enter))
  unfolding walk_path enter_states
  walk_path_lem exit [] kept to m unarmed h p top =
      let (g, c, s) = exit_states_lem exit kept m h in
      let out = exit_states env exit m in
      let g' : Goes env parent kept out (record out { current = some to }) kept =
        Goes-same env parent {m = out} {m' = record out { current = some to }} kept refl (λ q. q) in
      (
        refl,
        Goes-trans env parent g g',
        refl,
        record { live = s.live; owned = s.owned; idle = s.idle },
      )
  walk_path_lem exit (sid ∷ rest) kept to m unarmed h p top =
      let (g, c, s) = exit_states_lem exit kept m h in
      let out = exit_states env exit m in
      let (ends, b) = enter_states_lem (sid ∷ rest) kept out unarmed s p in
      if_false (enter_states env (sid ∷ rest) out).1
        (λ (r : Machine Ev Ctx × Bool). Walks (exit ++ kept) to m r (stack rest (sid ∷ kept)) true)
        _ _ ends (refl, Goes-trans env parent g b.0, b.2 (inl (λ e. cc)) ∙ top, b.1)

-- Entering in order is what the reversed path says.
stack-eq : (new kept : List ℕ) → stack new kept ≡ reverse new ++ kept
stack-eq [] kept = refl
stack-eq (s ∷ rest) kept =
    stack-eq rest (s ∷ kept)
    ∙ sym (append_assoc (reverse rest) (s ∷ []) kept)
    ∙ ap (λ l. l ++ kept) (sym (reverse-append (s ∷ []) rest))

module _ {n : ℕ} {parent : ℕ → Option ℕ} {depth : ℕ → ℕ} (tree : IsTree n parent depth) where
  pub chain-head : (s : ℕ) → head? (chain parent s) ≡ some s
  chain-head s = elim (Option-cases (parent s)) [
    | inl e ↦ rw (chain-root tree s e)
    | inr (p, e) ↦ rw (chain-step tree s p e)
  ]

  chain-IsPath : (fuel s : ℕ) → s < fuel → IsPath parent (chain parent s)
  chain-IsPath zero s h = elim h [ ]
  chain-IsPath (suc fuel) s h = elim (Option-cases (parent s)) [
    | inl e ↦ rw (chain-root tree s e) (e, tt)
    | inr (p, e) ↦
        let below = chain-IsPath fuel p (omega (arith, tree.smaller s p e)) in
        rw (chain-step tree s p e) (rw (chain-head p) e, below)
  ]

  module _ {Ev Ctx : Type 0} (env : Env Ev Ctx)
      (unarmed : env.has_timers ≡ false → (s : ℕ) → env.owned_timers s ≡ []) where
    -- On a machine that sits on the active path of `from`, `apply_path` along paths that `Moves`
    -- describes leads to the active path of `to`: the journal replays from the one to the other, `to`
    -- is current, and the timers belong to its path. The flag tells whether a state was entered.
    pub apply_path_lem :
        (from to : ℕ) (exit enter : List ℕ) (m : Machine Ev Ctx)
        → path_slices env from to ≡ some (exit, enter)
        → Moves parent from to exit enter
        → Sits env (chain parent from) m
        → (m' : Machine Ev Ctx) × (apply_path env from to m ≡ some (m', not (is_empty enter)))
          × Goes env parent (chain parent from) m m' (chain parent to)
          × (m'.current ≡ some to)
          × Sits env (chain parent to) m'
    unfolding apply_path
    apply_path_lem from to exit enter m found moves h =
        let kept = moves.kept in
        let built : stack enter kept ≡ chain parent to = stack-eq enter kept ∙ sym moves.arrives in
        let (newly, g, c, s) =
          walk_path_lem env parent exit enter kept to m unarmed
            (subst (λ p. Sits env p m) moves.leaves h)
            (subst (IsPath parent) (sym built) (chain-IsPath (suc to) to (omega arith)))
            (ap head? built ∙ chain-head to) in
        (
          (walk_path env exit enter to m).0,
          rw found (ap (λ b. some ((walk_path env exit enter to m).0, b)) newly),
          subst (λ p. Goes env parent p m (walk_path env exit enter to m).0 (chain parent to))
              (sym moves.leaves)
              (subst (λ p. Goes env parent (exit ++ kept) m (walk_path env exit enter to m).0 p)
                built g),
          c,
          subst (λ p. Sits env p (walk_path env exit enter to m).0) built s,
        )
