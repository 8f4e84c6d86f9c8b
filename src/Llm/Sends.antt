-- ===== src/Llm/Sends.antt =====
-- How often a request of infra/llm is sent, and to which model.
use meta_agent.Common.{
  String, ◌≡◌, refl, ap, ◌∙◌, inl, inr, Bool, true, false, Option, none, some, arith, eq_iff,
  Bool-cases,
}
use meta_agent.Errors.{ok, err, breaker_backend}
use meta_agent.Exec.{Exec}
use meta_agent.Context.{RequestContext}
use meta_agent.Dict.{Dict, get}
use meta_agent.Llm.{LlmRequest, World, Client, Guard}
use meta_agent.Llm.Limits.{redis_call, breaking_client, default_key}
use meta_agent.Llm.Routes.{maybe_route, route_by, routed_to, is_model}

model-same :
    (model : Option String) (target : String) → is_model model target ≡ true → model ≡ some target
model-same none target h = absurd (cc h)
model-same (some m) target h = ap some (ground (arith, h, eq_iff target m))

is_model_self :
    (model : Option String) (target : String) → model ≡ some target → is_model model target ≡ true
is_model_self none target h = absurd (cc h)
is_model_self (some m) target h = ground (arith, eq_iff target m, h)

routed-model :
    (target : String) (request : LlmRequest) → (routed_to (some target) request).model ≡ some target
routed-model target request = elim (Bool-cases (is_model request.model target)) [
  | inl same ↦ rw same (model-same request.model target same)
  | inr other ↦ rw other refl
]

routed-rest :
    (target : Option String) (request : LlmRequest)
    → ((routed_to target request).step_kind ≡ request.step_kind)
      × ((routed_to target request).fields ≡ request.fields)
routed-rest none request = (refl, refl)
routed-rest (some target) request = elim (Bool-cases (is_model request.model target)) [
  | inl same ↦ rw same (refl, refl)
  | inr other ↦ rw other (refl, refl)
]

routed-again :
    (target : Option String) (request : LlmRequest)
    → routed_to target (routed_to target request) ≡ routed_to target request
routed-again none request = refl
routed-again (some target) request =
    rw (is_model_self (routed_to (some target) request).model target (routed-model target request))
      refl

-- the mapping's model for a kind of step, and else the model that was asked for
abbrev pub or_asked : Option String → Option String → Option String
or_asked none asked = asked
or_asked (some target) asked = some target

abbrev pub expected_model : Dict String → Option String → Option String → Option String
expected_model mapping none asked = asked
expected_model mapping (some kind) asked = or_asked (get mapping kind) asked

module _ (mapping : Dict String) where
  by-kind :
      (kind : Option String) (request : LlmRequest)
      → ((route_by mapping kind request).step_kind ≡ request.step_kind)
        × ((route_by mapping kind request).fields ≡ request.fields)
  by-kind none request = (refl, refl)
  by-kind (some k) request = routed-rest (get mapping k) request

  by-again :
      (kind : Option String) (request : LlmRequest)
      → route_by mapping kind (route_by mapping kind request) ≡ route_by mapping kind request
  by-again none request = refl
  by-again (some k) request = routed-again (get mapping k) request

  to-expected :
      (target : Option String) (request : LlmRequest)
      → (routed_to target request).model ≡ or_asked target request.model
  to-expected none request = refl
  to-expected (some target) request = routed-model target request

  by-model :
      (kind : Option String) (request : LlmRequest)
      → (route_by mapping kind request).model ≡ expected_model mapping kind request.model
  by-model none request = refl
  by-model (some k) request = to-expected (get mapping k) request

  -- Routing gives a request the mapping's model for its kind of step, or leaves the model where there
  -- is none; it changes no other field, and a second routing changes nothing more.
  pub route_law :
      (request : LlmRequest)
      → ((maybe_route mapping request).model
          ≡ expected_model mapping request.step_kind request.model)
        × ((maybe_route mapping request).step_kind ≡ request.step_kind)
        × ((maybe_route mapping request).fields ≡ request.fields)
        × (maybe_route mapping (maybe_route mapping request) ≡ maybe_route mapping request)
  unfolding maybe_route
  route_law request =
      let (kind, fields) = by-kind request.step_kind request in
      (
        by-model request.step_kind request,
        kind,
        fields,
        ap (λ k. route_by mapping k (route_by mapping request.step_kind request)) kind
            ∙ by-again request.step_kind request,
      )

module _ (g : Guard) {Response : Type 0} (gate : String → Exec World Bool)
    (record_outcome : String → Bool → Bool → Bool → Exec World (Unit {0})) (inner : Client Response)
    (bound : Option RequestContext) where
  -- Over the Redis breaker, with faults of the backend let through: if the gate admits a request, the
  -- client below answers it, and the record of that success then fails, the request is sent a second
  -- time, and the first answer is lost.
  pub sent_twice :
      (request : LlmRequest) (s s1 s2 s3 : World) (is_probe : Bool) (response : Response)
      → g.fail_open ≡ true
      → gate (default_key g inner bound request) s ≡ (ok is_probe, s1)
      → inner request s1 ≡ (ok response, s2)
      → record_outcome (default_key g inner bound request) true false is_probe s2
        ≡ (err breaker_backend, s3)
      → breaking_client g inner bound (redis_call gate record_outcome) request s ≡ inner request s3
  unfolding breaking_client redis_call
  sent_twice request s s1 s2 s3 is_probe response passes admitted answered failed =
      rw admitted (rw answered (rw failed (rw passes refl)))
