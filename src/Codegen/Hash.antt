-- ===== src/Codegen/Hash.antt =====
-- `compute_chart_hash` of hsmc-macros/src/codegen.rs: FNV-1a over what is fed of the IR. The bytes of a
-- text, `as_bytes` of the standard library, are a parameter.
use Prim.Native.Nat.{◌/◌}
use Prim.Native.String.{String}
use hsmc.Ir.{
  Ir, StateIr, HandlerIr, HandlerKindIr, TriggerIr, ActionIr, EventVariantIr, as_u16, u16_max,
}
use hsmc.Prelude.{ℕ, zero, suc, ◌+◌, ◌*◌, ◌%◌, ◌^◌, Option, none, some, List, [], ◌∷◌, ◌++◌, length}

-- `^` of two `u64`, by their lowest bits.
abbrev pub xor : ℕ → ℕ → ℕ → ℕ
xor zero a b = 0
xor (suc bits) a b = (a % 2 + b % 2) % 2 + 2 * xor bits (a / 2) (b / 2)

abbrev pub fnv_offset : ℕ
fnv_offset = 14695981039346656037

abbrev pub fnv_prime : ℕ
fnv_prime = 1099511628211

-- `h ^= b; h = h.wrapping_mul(FNV_PRIME);`
abbrev pub mix : ℕ → ℕ → ℕ
mix h b = (xor 64 h b * fnv_prime) % 2 ^ 64

abbrev pub feed_bytes : ℕ → List ℕ → ℕ
feed_bytes h [] = h
feed_bytes h (b ∷ bs) = feed_bytes (mix h b) bs

-- `feed`
unfoldable pub feed : ℕ → List ℕ → ℕ
feed h bytes = mix (feed_bytes h bytes) 255

-- `to_le_bytes` of a `u16`
abbrev pub le_bytes : ℕ → List ℕ
le_bytes n = n % 256 ∷ (n / 256) % 256 ∷ []

abbrev pub unwrap_or_max : Option ℕ → ℕ
unwrap_or_max none = u16_max
unwrap_or_max (some n) = n

-- One call of `feed` for every id.
abbrev pub fed_ids : List ℕ → List (List ℕ)
fed_ids [] = []
fed_ids (i ∷ is) = le_bytes i ∷ fed_ids is

module _ (as_bytes : String → List ℕ) where
  abbrev pub fed_trigger : TriggerIr → List (List ℕ)
  fed_trigger (TriggerIr.event id variant payload) = (1 ∷ []) ∷ le_bytes id ∷ as_bytes variant ∷ []
  fed_trigger (TriggerIr.duration id) = (2 ∷ []) ∷ le_bytes id ∷ []

  abbrev pub fed_kind : HandlerKindIr → List (List ℕ)
  fed_kind (HandlerKindIr.transition name slot) =
      (16 ∷ []) ∷ as_bytes name ∷ le_bytes (unwrap_or_max slot) ∷ []
  fed_kind (HandlerKindIr.action id name) = (17 ∷ []) ∷ le_bytes id ∷ as_bytes name ∷ []

  abbrev pub fed_handlers : List HandlerIr → List (List ℕ)
  fed_handlers [] = []
  fed_handlers (h ∷ hs) = fed_trigger h.trigger ++ fed_kind h.kind ++ fed_handlers hs

  -- What the body of the loop over the states feeds; a depth is a `u8`.
  unfoldable pub fed_state : StateIr → List (List ℕ)
  fed_state s =
      le_bytes s.id
        ∷ as_bytes s.name
        ∷ le_bytes (unwrap_or_max s.parent)
        ∷ (s.depth ∷ [])
        ∷ le_bytes (unwrap_or_max s.default_child)
        ∷ fed_ids s.entries
      ++ (238 ∷ []) ∷ fed_ids s.exits
      ++ (255 ∷ []) ∷ fed_handlers s.handlers
      ++ (254 ∷ []) ∷ fed_ids s.owned_timers
      ++ (253 ∷ []) ∷ le_bytes (as_u16 (length s.durings)) ∷ []

  abbrev pub fed_states : List StateIr → List (List ℕ)
  fed_states [] = []
  fed_states (s ∷ rest) = fed_state s ++ fed_states rest

  abbrev pub fed_actions : List ActionIr → List (List ℕ)
  fed_actions [] = []
  fed_actions (a ∷ rest) = as_bytes a.name ∷ le_bytes (as_u16 (length a.params)) ∷ fed_actions rest

  abbrev pub fed_events : List EventVariantIr → List (List ℕ)
  fed_events [] = []
  fed_events (e ∷ rest) = as_bytes e.name ∷ fed_events rest

  abbrev pub feed_all : ℕ → List (List ℕ) → ℕ
  feed_all h [] = h
  feed_all h (bytes ∷ rest) = feed_all (feed h bytes) rest

  abbrev pub fed : Ir → List (List ℕ)
  fed ir =
      as_bytes ir.name ∷ fed_states ir.states
      ++ (252 ∷ []) ∷ fed_actions ir.actions
      ++ (251 ∷ []) ∷ fed_events ir.event_variants

  unfoldable pub compute_chart_hash : Ir → ℕ
  unfolding fed_state
  compute_chart_hash ir = feed_all fnv_offset (fed ir)
