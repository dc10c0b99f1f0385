-- ===== src/Router/Examples.antt =====
-- Three profiles, and the choices among them.
use systeme_local.Prelude.{
  ℕ, String, ◌≡◌, refl, Bool, true, false, Option, none, some, List, [], ◌∷◌, ok, err, Post, any,
}
use systeme_local.Router.{
  BrainTransport, official_api, mcp_client, available, coding, internal, BrainProfile, BrainRequest,
  RouteDecision, no_eligible_brain, autonomous_outbound, inbound_claim, handoff, first_of, by_id,
  or_fallback, select_from, select, outbound_eligible, inbound_eligible, handoff_eligible,
  select_outbound, select_inbound_claimant, select_interactive_handoff, decision_for,
}
use systeme_local.Router.Sound.{IsRouted, selections-IsRouted, answered, answers_iff}

abbrev profile : String → BrainTransport → ℕ → BrainProfile
profile id transport priority = record {
  provider_id = id;
  transport = transport;
  capabilities = λ c. true;
  priority = priority;
  enabled = true;
  availability = available;
  max_parallel_tasks = 2;
  active_tasks = 1;
  allowed_data_classes = λ d. true;
}

abbrev profiles : List BrainProfile
profiles =
    profile "web" mcp_client 12_000
    ∷ profile "low" official_api 10_000
    ∷ profile "high" official_api 11_000
    ∷ []

abbrev request : Option String → Bool → BrainRequest
request preferred fallback = record {
  task_id = "task-0001";
  capability = coding;
  data_class = internal;
  preferred_provider_id = preferred;
  allow_fallback = fallback;
}

highest :
    (p : RouteDecision) × (select_outbound (request none true) profiles ≡ ok p)
    × (p.provider_id ≡ "high")
unfolding select_outbound select select_from first_of decision_for
highest = (_, refl, refl)

preferred :
    (p : RouteDecision) × (select_outbound (request (some "low") false) profiles ≡ ok p)
    × (p.provider_id ≡ "low")
unfolding select_outbound select select_from first_of by_id or_fallback decision_for
preferred = (_, refl, refl)

-- the web client is not called, even where it is preferred
not_called : select_outbound (request (some "web") false) profiles ≡ err no_eligible_brain
unfolding select_outbound select select_from first_of by_id or_fallback
not_called = refl

selections-IsRouted_example :
    Post
      (IsRouted autonomous_outbound (request (some "low") true) profiles)
      (select_outbound (request (some "low") true) profiles)
    × Post
        (IsRouted inbound_claim (request (some "low") true) profiles)
        (select_inbound_claimant (request (some "low") true) profiles)
    × Post
        (IsRouted handoff (request (some "low") true) profiles)
        (select_interactive_handoff (request (some "low") true) profiles)
selections-IsRouted_example = selections-IsRouted (request (some "low") true) profiles

answers_iff_example :
    (answered (select_outbound (request none true) profiles)
      ≡ any (outbound_eligible (request none true)) profiles)
    × (answered (select_inbound_claimant (request none true) profiles)
        ≡ any (inbound_eligible (request none true)) profiles)
    × (answered (select_interactive_handoff (request none true) profiles)
        ≡ any (handoff_eligible (request none true)) profiles)
answers_iff_example = answers_iff (request none true) profiles refl
