-- ===== src/Workflow/Instance.antt =====
-- A running workflow, src/domain/workflow/instance.js. Of the metadata the failure's reason is kept.
use Prim.Native.String.{String}
use oncall_backend_private.Prelude.{
  ℕ, zero, suc, ◌+◌, ◌-◌, Bool, true, false, Option, none, some, List, [], ◌∷◌, ◌++◌, length,
  string_key, insert,
}
use oncall_backend_private.Workflow.Definition.{Context}

pub data Status : Type 0 where
  running completed failed cancelled suspended : Status

-- An entry of the history.
pub record Entry : Type 0 where
  pub from : String
  pub to : String
  pub event : String
  pub at : ℕ
  pub version : ℕ

pub record Instance (V : Type 0) : Type 0 where
  pub workflow_id : String
  pub definition_name : String
  pub definition_version : ℕ
  pub state : String
  pub status : Status
  pub context : Context V
  pub failure_reason : Option String
  pub version : ℕ
  pub history : List Entry
  pub created_at : ℕ
  pub updated_at : ℕ

abbrev pub is_running : Status → Bool
is_running running = true
is_running _ = false

abbrev pub is_suspended : Status → Bool
is_suspended suspended = true
is_suspended _ = false

-- `xs.slice(-n)` for a positive n.
unfoldable pub drop {ℓ} : {A : Type ℓ} → ℕ → List A → List A
drop zero xs = xs
drop (suc n) [] = []
drop (suc n) (x ∷ xs) = drop n xs

unfoldable pub last_entries {ℓ} : {A : Type ℓ} → ℕ → List A → List A
unfolding drop
last_entries n xs = drop (length xs - n) xs

abbrev pub nonzero_or : ℕ → ℕ → ℕ
nonzero_or zero fallback = fallback
nonzero_or (suc n) fallback = suc n

module _ {V : Type 0} where
  -- `{ ...context, ...patch }`.
  unfoldable pub merge : Context V → Context V → Context V
  merge context [] = context
  merge context ((k, v) ∷ patch) = merge (insert k v context) patch

  -- `createInstance` for a new workflow.
  unfoldable pub create_instance : String → String → ℕ → String → Context V → ℕ → Instance V
  create_instance workflow_id definition_name definition_version state context now = record {
    workflow_id = workflow_id;
    definition_name = definition_name;
    definition_version = definition_version;
    state = state;
    status = running;
    context = context;
    failure_reason = none;
    version = 1;
    history = [];
    created_at = now;
    updated_at = now;
  }

  unfoldable pub transition_to : Instance V → String → String → Context V → ℕ → Instance V
  transition_to i to event patch now =
      let entry : Entry = record {
        from = i.state;
        to = to;
        event = event;
        at = now;
        version = i.version;
      } in
      record i {
        history = i.history ++ entry ∷ [];
        state = to;
        context = merge i.context patch;
        version = i.version + 1;
        updated_at = now;
      }

  unfoldable pub complete : Instance V → ℕ → Instance V
  complete i now = record i { status = completed; version = i.version + 1; updated_at = now }

  unfoldable pub fail : Instance V → String → ℕ → Instance V
  fail i reason now = record i {
    status = failed;
    failure_reason = some reason;
    version = i.version + 1;
    updated_at = now;
  }

  unfoldable pub cancel : Instance V → ℕ → Instance V
  cancel i now = record i { status = cancelled; version = i.version + 1; updated_at = now }

  -- `suspend`, `resume`: the instance, and whether it changed.
  unfoldable pub suspend : Instance V → ℕ → Instance V × Bool
  suspend i now = elim i.status [
    | running ↦ (record i { status = suspended; version = i.version + 1; updated_at = now }, true)
    | _ ↦ (i, false)
  ]

  unfoldable pub resume : Instance V → ℕ → Instance V × Bool
  resume i now = elim i.status [
    | suspended ↦ (record i { status = running; version = i.version + 1; updated_at = now }, true)
    | _ ↦ (i, false)
  ]

  -- `fromModel`: a number that is 0 is replaced.
  unfoldable pub from_model : Instance V → ℕ → Instance V
  from_model model now = record model {
    definition_version = nonzero_or model.definition_version 1;
    version = nonzero_or model.version 1;
    created_at = nonzero_or model.created_at now;
    updated_at = nonzero_or model.updated_at now;
  }
