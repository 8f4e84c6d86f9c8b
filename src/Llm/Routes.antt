-- ===== src/Llm/Routes.antt =====
-- infra/llm/routing.py: the model that a step is sent to. `strip` is the standard library's.
use meta_agent.Common.{String, Bool, false, not, Option, none, some, [], ◌∷◌, ◌==◌, if◌then◌else◌}
use meta_agent.Errors.{Result, ok, value_error, require, ◌>>◌}
use meta_agent.Dict.{Dict, get, put}
use meta_agent.Llm.{LlmRequest, Client}

-- StaticLLMRouter.__init__: the loop over the mapping
unfoldable pub normalise : (String → String) → Dict String → Dict String → Result (Dict String)
normalise strip [] normalised = ok normalised
normalise strip ((step_kind, model) ∷ rest) normalised = do
  require (not (step_kind == "")) value_error
  require (not (strip model == "")) value_error
  normalise strip rest (put normalised step_kind model)

abbrev pub static_router : (String → String) → Dict String → Result (Dict String)
static_router strip mapping = normalise strip mapping []

abbrev pub is_model : Option String → String → Bool
is_model none target = false
is_model (some model) target = target == model

abbrev pub routed_to : Option String → LlmRequest → LlmRequest
routed_to none request = request
routed_to (some target) request =
    if is_model request.model target then request else record request { model = some target }

abbrev pub route_by : Dict String → Option String → LlmRequest → LlmRequest
route_by mapping none request = request
route_by mapping (some step_kind) request = routed_to (get mapping step_kind) request

-- RoutingLLMClient._maybe_route, with StaticLLMRouter.select_model
unfoldable pub maybe_route : Dict String → LlmRequest → LlmRequest
maybe_route mapping request = route_by mapping request.step_kind request

-- RoutingLLMClient.complete
unfoldable pub routing_client :
    {Response : Type 0} → Dict String → Client Response → Client Response
routing_client mapping inner request = inner (maybe_route mapping request)
