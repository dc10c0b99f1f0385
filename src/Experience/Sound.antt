-- ===== src/Experience/Sound.antt =====
-- When Work is selected, and that every decision is one that its model accepts.
use systeme_local.Prelude.{
  ℕ, ◌-◌, ◌≡◌, refl, inl, inr, Bool, true, false, not, ◌&&◌, Option, none, some, arith, str_eq, ltb,
  leb, ◌==◌, if◌then◌else◌, Bool-cases, ok, raise_if, Post, Post-ok, Post-then, raise_if-ok,
}
use systeme_local.Experience.{
  AvailabilityState, available, unavailable, degraded, unknown, ExperienceRequestKind,
  auto_requested, chat_requested, work_requested, QuotaState, quota_available, near_limit,
  exhausted, reset_pending, quota_unavailable, quota_unknown, CapabilitySupport, supported,
  unsupported, support_unknown, QuotaDimension, work_agentic, work_quota_stale, value_error,
  ProviderAccountProfile, ProviderQuotaSnapshot, ExperienceSelectionRequest,
  ExperienceSelectionDecision, work_selected, validate_decision, chat_fallback, by_quota,
  is_work_agentic, by_snapshot, by_capability, by_request, by_availability,
  select_chatgpt_experience,
}

abbrev is_available : AvailabilityState → Bool
is_available available = true
is_available _ = false

abbrev is_work_request : ExperienceRequestKind → Bool
is_work_request work_requested = true
is_work_request _ = false

abbrev is_supported : CapabilitySupport → Bool
is_supported supported = true
is_supported _ = false

abbrev is_usable : QuotaState → Bool
is_usable quota_available = true
is_usable near_limit = true
is_usable _ = false

abbrev measures_work : QuotaDimension → Bool
measures_work work_agentic = true
measures_work _ = false

-- an observation of this account's quota for Work, from before the evaluation
abbrev is_own_quota : ProviderAccountProfile → ℕ → ProviderQuotaSnapshot → Bool
is_own_quota account evaluated_at quota =
    str_eq quota.account_id account.account_id
    && measures_work quota.dimension
    && leb quota.observed_at evaluated_at

abbrev is_fresh_and_usable : ℕ → ℕ → ProviderQuotaSnapshot → Bool
is_fresh_and_usable evaluated_at max_age quota =
    leb (evaluated_at - quota.observed_at) max_age && is_usable quota.state

abbrev gives_work : ProviderAccountProfile → ℕ → ℕ → Option ProviderQuotaSnapshot → Bool
gives_work account evaluated_at max_age none = false
gives_work account evaluated_at max_age (some quota) =
    is_own_quota account evaluated_at quota && is_fresh_and_usable evaluated_at max_age quota

-- An account that is available and supports Work, a request of that account for Work, and an
-- observation of that account's quota for Work, not in the future, that is known to be usable and
-- is not older than allowed.
pub is_entitled :
    ProviderAccountProfile
    → ExperienceSelectionRequest
    → ℕ
    → Option ProviderQuotaSnapshot
    → ℕ
    → Bool
is_entitled account request evaluated_at quota max_age =
    str_eq request.account_id account.account_id
    && is_available account.availability
    && is_work_request request.requested
    && is_supported account.work_capability
    && gives_work account evaluated_at max_age quota

not-false : (b : Bool) → not b ≡ false → b ≡ true
not-false true h = refl
not-false false h = cc

module _ (request : ExperienceSelectionRequest) (evaluated_at : ℕ) where
  record Fits (entitled : Bool) (d : ExperienceSelectionDecision) : Type 0 where
    valid : validate_decision d ≡ true
    work_if : work_selected d.selected ≡ entitled
    same_request : d.request_id ≡ request.request_id

  by_quota-Fits : (q : QuotaState) → Fits (is_usable q) (by_quota request evaluated_at q)
  unfolding by_quota validate_decision
  by_quota-Fits quota_available = record { valid = refl; work_if = refl; same_request = refl }
  by_quota-Fits near_limit = record { valid = refl; work_if = refl; same_request = refl }
  by_quota-Fits exhausted = record { valid = refl; work_if = refl; same_request = refl }
  by_quota-Fits reset_pending = record { valid = refl; work_if = refl; same_request = refl }
  by_quota-Fits quota_unavailable = record { valid = refl; work_if = refl; same_request = refl }
  by_quota-Fits quota_unknown = record { valid = refl; work_if = refl; same_request = refl }

  if_stale-Fits :
      (quota : ProviderQuotaSnapshot) (max_age : ℕ)
      → Fits (is_fresh_and_usable evaluated_at max_age quota) (
          if ltb max_age (evaluated_at - quota.observed_at)
          then chat_fallback request evaluated_at work_quota_stale "WORK_QUOTA_STALE_FALLBACK_CHAT"
          else by_quota request evaluated_at quota.state)
  unfolding validate_decision
  if_stale-Fits quota max_age = elim (Bool-cases (ltb max_age (evaluated_at - quota.observed_at))) [
    | inl stale ↦
        let old : leb (evaluated_at - quota.observed_at) max_age ≡ false = ground arith in
        rw (stale, old) (record { valid = refl; work_if = refl; same_request = refl })
    | inr fresh ↦
        let young : leb (evaluated_at - quota.observed_at) max_age ≡ true = ground arith in
        rw (fresh, young) (by_quota-Fits quota.state)
  ]

  own_quota :
      (account : ProviderAccountProfile) (quota : ProviderQuotaSnapshot)
      → not (str_eq quota.account_id account.account_id) ≡ false
      → not (is_work_agentic request evaluated_at quota.dimension) ≡ false
      → ltb evaluated_at quota.observed_at ≡ false
      → is_own_quota account evaluated_at quota ≡ true
  own_quota account quota e1 e2 e3 = ground arith

  by_snapshot-Fits :
      (account : ProviderAccountProfile) (max_age : ℕ) (quota : Option ProviderQuotaSnapshot)
      → Post
          (Fits (gives_work account evaluated_at max_age quota))
          (by_snapshot request evaluated_at account max_age quota)
  unfolding by_snapshot validate_decision
  by_snapshot-Fits account max_age none =
      Post-ok (record { valid = refl; work_if = refl; same_request = refl })
  by_snapshot-Fits account max_age (some quota) =
      Post-then (raise_if (not (str_eq quota.account_id account.account_id)) value_error) _ (λ e1.
        Post-then
          (raise_if (not (is_work_agentic request evaluated_at quota.dimension)) value_error) _
          (λ e2. Post-then (raise_if (ltb evaluated_at quota.observed_at) value_error) _ (λ e3.
            let own =
              own_quota account quota (raise_if-ok _ _ e1) (raise_if-ok _ _ e2)
                (raise_if-ok _ _ e3) in
            Post-ok (rw own (if_stale-Fits quota max_age)))))

  by_capability-Fits :
      (account : ProviderAccountProfile) (max_age : ℕ) (quota : Option ProviderQuotaSnapshot)
      (c : CapabilitySupport)
      → Post
          (Fits (is_supported c && gives_work account evaluated_at max_age quota))
          (by_capability request evaluated_at account max_age quota c)
  unfolding by_capability validate_decision
  by_capability-Fits account max_age quota unsupported =
      Post-ok (record { valid = refl; work_if = refl; same_request = refl })
  by_capability-Fits account max_age quota support_unknown =
      Post-ok (record { valid = refl; work_if = refl; same_request = refl })
  by_capability-Fits account max_age quota supported = by_snapshot-Fits account max_age quota

  by_request-Fits :
      (account : ProviderAccountProfile) (max_age : ℕ) (quota : Option ProviderQuotaSnapshot)
      (k : ExperienceRequestKind)
      → Post
          (Fits (
            is_work_request k
            && is_supported account.work_capability
            && gives_work account evaluated_at max_age quota))
          (by_request request evaluated_at account max_age quota k)
  unfolding by_request validate_decision
  by_request-Fits account max_age quota auto_requested =
      Post-ok (record { valid = refl; work_if = refl; same_request = refl })
  by_request-Fits account max_age quota chat_requested =
      Post-ok (record { valid = refl; work_if = refl; same_request = refl })
  by_request-Fits account max_age quota work_requested =
      by_capability-Fits account max_age quota account.work_capability

  by_availability-Fits :
      (account : ProviderAccountProfile) (max_age : ℕ) (quota : Option ProviderQuotaSnapshot)
      (a : AvailabilityState)
      → Post
          (Fits (
            is_available a
            && is_work_request request.requested
            && is_supported account.work_capability
            && gives_work account evaluated_at max_age quota))
          (by_availability request evaluated_at account max_age quota a)
  unfolding by_availability validate_decision
  by_availability-Fits account max_age quota available =
      by_request-Fits account max_age quota request.requested
  by_availability-Fits account max_age quota unavailable =
      Post-ok (record { valid = refl; work_if = refl; same_request = refl })
  by_availability-Fits account max_age quota degraded =
      Post-ok (record { valid = refl; work_if = refl; same_request = refl })
  by_availability-Fits account max_age quota unknown =
      Post-ok (record { valid = refl; work_if = refl; same_request = refl })

select_Post :
    (account : ProviderAccountProfile) (request : ExperienceSelectionRequest) (evaluated_at : ℕ)
    (quota : Option ProviderQuotaSnapshot) (max_age : ℕ)
    → Post
        (Fits request evaluated_at (is_entitled account request evaluated_at quota max_age))
        (select_chatgpt_experience account request evaluated_at quota max_age)
unfolding select_chatgpt_experience is_entitled
select_Post account request evaluated_at quota max_age =
    Post-then (raise_if (max_age == 0) value_error) _ (λ e1.
      Post-then (raise_if (not (str_eq request.account_id account.account_id)) value_error) _ (λ e2.
        Post-then (raise_if (ltb evaluated_at request.requested_at) value_error) _ (λ e3.
          Post-then (raise_if (ltb evaluated_at account.updated_at) value_error) _ (λ e4.
            rw (not-false _ (raise_if-ok _ _ e2)) (
              by_availability-Fits request evaluated_at account max_age quota
                account.availability)))))

-- A decision that is returned selects Work exactly if the request is entitled to it: it is a
-- request for Work of this account, the account is available and supports Work, and the quota is an
-- observation of this account's quota for Work, made no later than the evaluation and not
-- older than allowed, that is available or near its limit. The decision satisfies the validator of its model,
-- and names the request.
pub select-Fits :
    (account : ProviderAccountProfile) (request : ExperienceSelectionRequest) (evaluated_at : ℕ)
    (quota : Option ProviderQuotaSnapshot) (max_age : ℕ) (d : ExperienceSelectionDecision)
    → select_chatgpt_experience account request evaluated_at quota max_age ≡ ok d
    → (work_selected d.selected ≡ is_entitled account request evaluated_at quota max_age)
      × (validate_decision d ≡ true)
      × (d.request_id ≡ request.request_id)
select-Fits account request evaluated_at quota max_age d h =
    let fits = (select_Post account request evaluated_at quota max_age).at d h in
    (fits.work_if, fits.valid, fits.same_request)
