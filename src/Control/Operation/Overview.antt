-- ===== src/Control/Operation/Overview.antt =====
-- The status of the Router from its models, against a description without a loop.
use llamarig.Common.{
  ◌≡◌, refl, sym, ◌⊎◌, inl, inr, some, ◌∙◌, ap, Bool, ◌||◌, List, [], ◌∷◌, ◌++◌, append_assoc,
  append-nil, any, if◌then◌else◌, Bool-cases,
}
use llamarig.Common.Results.{ok}
use llamarig.Control.Router.{Model, RunState, stopped, starting, running, is_stopped, Router}
use llamarig.Control.Operation.Report.{
  RuntimePreset, preset_state, is_ready_state, is_starting, status_loop, status_of_models,
  status_listed, router_status, RuntimeStatus,
}

-- The models that are not stopped, in order.
pub active_presets : List Model → List RuntimePreset
active_presets [] = []
active_presets (m ∷ models) =
    if is_stopped (preset_state m.status)
    then active_presets models
    else record {
      name = m.id;
      state = preset_state m.status;
      ready = is_ready_state (preset_state m.status);
    }
      ∷ active_presets models

-- Starting where a model starts, else running where one runs.
abbrev pub joint_state : Bool → Bool → RunState
joint_state any_starting any_running =
    if any_starting then starting else if any_running then running else stopped

abbrev pub state_of_models : RunState → List Model → RunState
state_of_models total models =
    joint_state (is_starting total || any (λ m. is_starting (preset_state m.status)) models)
      (is_ready_state total || any (λ m. is_ready_state (preset_state m.status)) models)

RunState-cases : (s : RunState) → (s ≡ stopped) ⊎ (s ≡ starting) ⊎ (s ≡ running)
RunState-cases stopped = inl refl
RunState-cases starting = inr (inl refl)
RunState-cases running = inr (inr refl)

abbrev next_total : RunState → RunState → RunState
next_total state total =
    if is_stopped state
    then total
    else if is_starting state || is_stopped total
    then state
    else total

next_total-joint :
    (state total : RunState) (more_starting more_running : Bool)
    → joint_state
        (is_starting (next_total state total) || more_starting)
        (is_ready_state (next_total state total) || more_running)
      ≡ joint_state
          (is_starting total || (is_starting state || more_starting))
          (is_ready_state total || (is_ready_state state || more_running))
next_total-joint stopped total b c = refl
next_total-joint starting stopped b c = refl
next_total-joint starting starting b c = refl
next_total-joint starting running b c = refl
next_total-joint running stopped b c = refl
next_total-joint running starting b c = refl
next_total-joint running running b c = refl

-- The loop is a fold of both.
status_loop-cons :
    (m : Model) (models : List Model) (total : RunState) (presets : List RuntimePreset)
    → status_loop (m ∷ models) (total, presets)
      ≡ status_loop models
          (next_total (preset_state m.status) total, presets ++ active_presets (m ∷ []))
unfolding status_loop active_presets
status_loop-cons m models total presets = elim (RunState-cases (preset_state m.status)) [
  | inl e ↦ rw (e, append-nil) refl
  | inr (inl e) ↦ rw e refl
  | inr (inr e) ↦ rw e refl
]

active_presets-cons :
    (m : Model) (models : List Model)
    → active_presets (m ∷ models) ≡ active_presets (m ∷ []) ++ active_presets models
unfolding active_presets
active_presets-cons m models = elim (Bool-cases (is_stopped (preset_state m.status))) [
  | inl e ↦ rw e refl
  | inr e ↦ rw e refl
]

status_loop-active :
    (models : List Model) (total : RunState) (presets : List RuntimePreset)
    → ((status_loop models (total, presets)).0 ≡ state_of_models total models)
      × ((status_loop models (total, presets)).1 ≡ presets ++ active_presets models)
unfolding status_loop active_presets
status_loop-active [] stopped presets = (refl, sym (append-nil presets))
status_loop-active [] starting presets = (refl, sym (append-nil presets))
status_loop-active [] running presets = (refl, sym (append-nil presets))
status_loop-active (m ∷ models) total presets =
    let next = next_total (preset_state m.status) total in
    let step = status_loop-cons m models total presets in
    let (joint, listed) = status_loop-active models next (presets ++ active_presets (m ∷ [])) in
    (
      ap (λ (t : RunState × List RuntimePreset). t.0) step
          ∙ joint
          ∙ next_total-joint (preset_state m.status) total _ _,
      ap (λ (t : RunState × List RuntimePreset). t.1) step
          ∙ listed
          ∙ append_assoc presets (active_presets (m ∷ [])) (active_presets models)
          ∙ ap (λ (ps : List RuntimePreset). presets ++ ps) (sym (active_presets-cons m models)),
    )

-- Where the Router lists its models, its status is starting where a model starts, else running
-- where one runs, else stopped, and it names exactly the models that are not stopped, in order.
pub router_status-active :
    {W : Type 0} (router : Router W) (w w' : W) (models : List Model)
    → router.list w ≡ (ok models, w')
    → (status : RuntimeStatus) × (router_status (some router) w ≡ (ok status, w'))
      × (status.state ≡ state_of_models stopped models)
      × (status.presets ≡ active_presets models)
unfolding router_status
router_status-active router w w' models listed =
    let (joint, named) = status_loop-active models stopped [] in
    (status_of_models models, ap (status_listed router) listed, joint, named)
