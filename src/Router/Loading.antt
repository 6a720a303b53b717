-- ===== src/Router/Loading.antt =====
-- When the sidecar of internal/llm/routing.go is used, and when it is loaded.
use vibe_local_go.Base.{◌≡◌, Bool, true, false, not, ◌||◌, List, [], ◌∷◌, Option, none, some, arith}
use vibe_local_go.Router.{
  Provider, ModelRouter, preload_sidecar, switch_to_main, swap_model_hot, swap_to_sidecar,
}

-- The calls that load the sidecar before it is used.
pub data Call : Type 0 where
  preload to_main : Call
  swap : Bool → Call

module _ {W : Type 0} where
  unfoldable pub call : Call → ModelRouter W → W → ModelRouter W × W
  unfolding preload_sidecar switch_to_main swap_model_hot
  call preload mr w = let (err, mr', w') = preload_sidecar mr w in (mr', w')
  call to_main mr w = (switch_to_main mr, w)
  call (swap to_sidecar) mr w = let (err, mr', w') = swap_model_hot to_sidecar mr w in (mr', w')

  unfoldable pub call_all : List Call → ModelRouter W → W → ModelRouter W × W
  unfolding call
  call_all [] mr w = (mr, w)
  call_all (c ∷ cs) mr w = let (mr', w') = call c mr w in call_all cs mr' w'

  abbrev pub is_nil : Option (Provider W) → Bool
  is_nil none = true
  is_nil (some p) = false

  -- A sidecar that is in use and has a provider is loaded.
  abbrev pub is_ready : ModelRouter W → Bool
  is_ready mr = not mr.use_sidecar || mr.sidecar_loaded || is_nil mr.sidecar_provider

  call-is_ready :
      (c : Call) (mr : ModelRouter W) (w : W) → is_ready mr ≡ true → is_ready (call c mr w).0 ≡ true
  unfolding call preload_sidecar switch_to_main swap_model_hot swap_to_sidecar
  call-is_ready preload mr w v = ground (arith, v)
  call-is_ready to_main mr w v = ground arith
  call-is_ready (swap true) mr w v = ground (arith, v)
  call-is_ready (swap false) mr w v = ground arith

  -- Whatever calls of PreloadSidecar, SwitchToMain and SwapModelHot are made, and however they end,
  -- a sidecar that is in use and has a provider is loaded.
  call_all-is_ready :
      (cs : List Call) (mr : ModelRouter W) (w : W)
      → is_ready mr ≡ true
      → is_ready (call_all cs mr w).0 ≡ true
  unfolding call_all
  call_all-is_ready [] mr w v = v
  call_all-is_ready (c ∷ cs) mr w v =
      call_all-is_ready cs (call c mr w).0 (call c mr w).1 (call-is_ready c mr w v)
