-- ===== src/Experience.antt =====
-- src/systeme_local_gateway/providers/context_policy.py: the choice between Chat and Work for a
-- request, with the models of src/systeme_local_gateway/providers/context_models.py that it reads.
-- Times are whole microseconds in UTC.
mod Sound
mod Examples
use systeme_local.Prelude.{
  ℕ, zero, suc, ◌+◌, ◌-◌, ◌*◌, ◌≤◌, ◌<◌, String, ◌≡◌, refl, sym, ap, ◌∙◌, ◌≢◌, ◌↔◌, ◌⊎◌, inl, inr,
  Bool, true, false, not, ◌&&◌, ◌||◌, Option, none, some, List, [], ◌∷◌, ◌++◌, map, arith, str_eq,
  eq_iff, eq_refl, ltb, leb, ◌==◌, if◌then◌else◌, leb→le, Bool-cases, Option-cases, is_some, Result,
  ok, err, ◌>>=◌, ◌>>◌, raise_if, Method, commit_or_rollback, Post, Post-ok, Post-err, Post-bind,
  Post-then, raise_if-ok, Post-commit, committed, length, any, find, keep, length-append,
  length-keep, All, All-append, any-append, All-keep, any-keep, keep-keep, find-all_false,
  find-true, All-find, Distinct, str_eq_comm, Distinct-keep, Distinct-append, has_key, dict_get,
  dict_set, dict_pop, has_key-dict_set, has_key-dict_pop, All-dict_set, All-dict_pop,
}

pub data AvailabilityState : Type 0 where
  available unavailable degraded unknown : AvailabilityState

pub data ExperienceKind : Type 0 where
  chat work : ExperienceKind

pub data ExperienceRequestKind : Type 0 where
  auto_requested chat_requested work_requested : ExperienceRequestKind

pub data QuotaDimension : Type 0 where
  chat_messages work_agentic file_upload_rate file_storage project_file_slots : QuotaDimension

pub data QuotaState : Type 0 where
  quota_available near_limit exhausted reset_pending quota_unavailable quota_unknown : QuotaState

pub data CapabilitySupport : Type 0 where
  supported unsupported support_unknown : CapabilitySupport

pub data SelectionReason : Type 0 where
  account_unavailable account_unknown default_chat explicit_chat work_available work_near_limit
        work_unsupported work_unknown work_quota_missing work_quota_exhausted work_quota_unavailable
        work_quota_unknown work_quota_stale :
      SelectionReason

pub data SelectionError : Type 0 where
  value_error : SelectionError

pub record ProviderAccountProfile : Type 0 where
  pub account_id : String
  pub availability : AvailabilityState
  pub work_capability : CapabilitySupport
  pub updated_at : ℕ

pub record ProviderQuotaSnapshot : Type 0 where
  pub account_id : String
  pub dimension : QuotaDimension
  pub state : QuotaState
  pub observed_at : ℕ

pub record ExperienceSelectionRequest : Type 0 where
  pub request_id : String
  pub account_id : String
  pub requested : ExperienceRequestKind
  pub requested_at : ℕ

pub record ExperienceSelectionDecision : Type 0 where
  pub request_id : String
  pub account_id : String
  pub selected : Option ExperienceKind
  pub reason : SelectionReason
  pub fallback_used : Bool
  pub user_message_code : String
  pub evaluated_at : ℕ

-- `validate_decision`
abbrev pub nothing_selected : Option ExperienceKind → Bool
nothing_selected none = true
nothing_selected (some k) = false

abbrev pub chat_selected : Option ExperienceKind → Bool
chat_selected (some chat) = true
chat_selected _ = false

abbrev pub work_selected : Option ExperienceKind → Bool
work_selected (some work) = true
work_selected _ = false

pub data ReasonKind : Type 0 where
  unavailable_reason direct_chat_reason work_reason fallback_reason : ReasonKind

abbrev pub kind_of : SelectionReason → ReasonKind
kind_of account_unavailable = unavailable_reason
kind_of account_unknown = unavailable_reason
kind_of default_chat = direct_chat_reason
kind_of explicit_chat = direct_chat_reason
kind_of work_available = work_reason
kind_of work_near_limit = work_reason
kind_of _ = fallback_reason

abbrev pub fits_kind : ReasonKind → Option ExperienceKind → Bool → Bool
fits_kind unavailable_reason selected fallback = nothing_selected selected && not fallback
fits_kind direct_chat_reason selected fallback = chat_selected selected && not fallback
fits_kind work_reason selected fallback = work_selected selected && not fallback
fits_kind fallback_reason selected fallback = chat_selected selected && fallback

pub validate_decision : ExperienceSelectionDecision → Bool
validate_decision d = fits_kind (kind_of d.reason) d.selected d.fallback_used

module _ (request : ExperienceSelectionRequest) (evaluated_at : ℕ) where
  abbrev pub decision :
      Option ExperienceKind → SelectionReason → Bool → String → ExperienceSelectionDecision
  decision selected reason fallback code = record {
    request_id = request.request_id;
    account_id = request.account_id;
    selected = selected;
    reason = reason;
    fallback_used = fallback;
    user_message_code = code;
    evaluated_at = evaluated_at;
  }

  abbrev pub chat_fallback : SelectionReason → String → ExperienceSelectionDecision
  chat_fallback reason code = decision (some chat) reason true code

  -- by the state of a quota that is fresh
  by_quota : QuotaState → ExperienceSelectionDecision
  by_quota quota_available = decision (some work) work_available false "WORK_SELECTED_EXPLICITLY"
  by_quota near_limit = decision (some work) work_near_limit false "WORK_SELECTED_NEAR_LIMIT"
  by_quota exhausted = chat_fallback work_quota_exhausted "WORK_QUOTA_EXHAUSTED_FALLBACK_CHAT"
  by_quota reset_pending = chat_fallback work_quota_exhausted "WORK_QUOTA_EXHAUSTED_FALLBACK_CHAT"
  by_quota quota_unavailable =
      chat_fallback work_quota_unavailable "WORK_QUOTA_UNAVAILABLE_FALLBACK_CHAT"
  by_quota quota_unknown = chat_fallback work_quota_unknown "WORK_QUOTA_UNKNOWN_FALLBACK_CHAT"

  abbrev is_work_agentic : QuotaDimension → Bool
  is_work_agentic work_agentic = true
  is_work_agentic _ = false

  -- from `if work_quota is None` on
  by_snapshot :
      ProviderAccountProfile
      → ℕ
      → Option ProviderQuotaSnapshot
      → Result SelectionError ExperienceSelectionDecision
  unfolding by_quota
  by_snapshot account max_age none =
      ok (chat_fallback work_quota_missing "WORK_QUOTA_MISSING_FALLBACK_CHAT")
  by_snapshot account max_age (some quota) = do
    raise_if (not (str_eq quota.account_id account.account_id)) value_error
    raise_if (not (is_work_agentic quota.dimension)) value_error
    raise_if (ltb evaluated_at quota.observed_at) value_error
    ok (
        if ltb max_age (evaluated_at - quota.observed_at)
        then chat_fallback work_quota_stale "WORK_QUOTA_STALE_FALLBACK_CHAT"
        else by_quota quota.state)

  by_capability :
      ProviderAccountProfile
      → ℕ
      → Option ProviderQuotaSnapshot
      → CapabilitySupport
      → Result SelectionError ExperienceSelectionDecision
  unfolding by_snapshot
  by_capability account max_age quota unsupported =
      ok (chat_fallback work_unsupported "WORK_UNSUPPORTED_FALLBACK_CHAT")
  by_capability account max_age quota support_unknown =
      ok (chat_fallback work_unknown "WORK_UNKNOWN_FALLBACK_CHAT")
  by_capability account max_age quota supported = by_snapshot account max_age quota

  by_request :
      ProviderAccountProfile
      → ℕ
      → Option ProviderQuotaSnapshot
      → ExperienceRequestKind
      → Result SelectionError ExperienceSelectionDecision
  unfolding by_capability
  by_request account max_age quota auto_requested =
      ok (decision (some chat) default_chat false "CHAT_SELECTED_BY_DEFAULT")
  by_request account max_age quota chat_requested =
      ok (decision (some chat) explicit_chat false "CHAT_SELECTED_EXPLICITLY")
  by_request account max_age quota work_requested =
      by_capability account max_age quota account.work_capability

  by_availability :
      ProviderAccountProfile
      → ℕ
      → Option ProviderQuotaSnapshot
      → AvailabilityState
      → Result SelectionError ExperienceSelectionDecision
  unfolding by_request
  by_availability account max_age quota unknown =
      ok (decision none account_unknown false "CHATGPT_ACCOUNT_UNKNOWN")
  by_availability account max_age quota unavailable =
      ok (decision none account_unavailable false "CHATGPT_ACCOUNT_UNAVAILABLE")
  by_availability account max_age quota degraded =
      ok (decision none account_unavailable false "CHATGPT_ACCOUNT_UNAVAILABLE")
  by_availability account max_age quota available =
      by_request account max_age quota request.requested

abbrev pub default_work_quota_max_age : ℕ
default_work_quota_max_age = 300_000_000

pub select_chatgpt_experience :
    ProviderAccountProfile
    → ExperienceSelectionRequest
    → ℕ
    → Option ProviderQuotaSnapshot
    → ℕ
    → Result SelectionError ExperienceSelectionDecision
unfolding by_availability
select_chatgpt_experience account request evaluated_at work_quota max_age = do
  raise_if (max_age == 0) value_error
  raise_if (not (str_eq request.account_id account.account_id)) value_error
  raise_if (ltb evaluated_at request.requested_at) value_error
  raise_if (ltb evaluated_at account.updated_at) value_error
  by_availability request evaluated_at account max_age work_quota account.availability
