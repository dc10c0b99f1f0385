-- ===== src/Experience/Examples.antt =====
-- A request for Work at a concrete account and quota.
use systeme_local.Prelude.{◌≡◌, refl, true, false, some, ok}
use systeme_local.Experience.{
  available, work_requested, work_agentic, near_limit, supported, ProviderAccountProfile,
  ProviderQuotaSnapshot, ExperienceSelectionRequest, ExperienceSelectionDecision, work,
  work_near_limit, work_selected, validate_decision, by_quota, by_snapshot, by_capability,
  by_request, by_availability, select_chatgpt_experience, decision, default_work_quota_max_age,
  work_quota_stale, chat_fallback,
}
use systeme_local.Experience.Sound.{is_entitled, select-Fits}

abbrev account : ProviderAccountProfile
account = record {
  account_id = "acc";
  availability = available;
  work_capability = supported;
  updated_at = 50;
}

abbrev request : ExperienceSelectionRequest
request = record {
  request_id = "req";
  account_id = "acc";
  requested = work_requested;
  requested_at = 60;
}

abbrev quota : ProviderQuotaSnapshot
quota = record {
  account_id = "acc";
  dimension = work_agentic;
  state = near_limit;
  observed_at = 90;
}

abbrev work_decision : ExperienceSelectionDecision
work_decision = decision request 100 (some work) work_near_limit false "WORK_SELECTED_NEAR_LIMIT"

selects_work :
    select_chatgpt_experience account request 100 (some quota) default_work_quota_max_age
    ≡ ok work_decision
unfolding select_chatgpt_experience by_availability by_request by_capability by_snapshot by_quota
selects_work = refl

-- the quota is older than allowed
falls_back :
    select_chatgpt_experience account request 100 (some quota) 9
    ≡ ok (chat_fallback request 100 work_quota_stale "WORK_QUOTA_STALE_FALLBACK_CHAT")
unfolding select_chatgpt_experience by_availability by_request by_capability by_snapshot by_quota
falls_back = refl

select-Fits_example :
    (work_selected work_decision.selected
      ≡ is_entitled account request 100 (some quota) default_work_quota_max_age)
    × (validate_decision work_decision ≡ true)
    × (work_decision.request_id ≡ request.request_id)
select-Fits_example =
    select-Fits account request 100 (some quota) default_work_quota_max_age work_decision
      selects_work
