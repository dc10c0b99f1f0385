-- ===== src/Router/Sound.antt =====
-- What is chosen, and when something is.
use systeme_local.Prelude.{
  ℕ, ◌≤◌, String, ◌≡◌, refl, sym, ap, ◌∙◌, ◌≢◌, ◌⊎◌, inl, inr, Bool, true, false, Option, none,
  some, List, [], ◌∷◌, arith, Bool-cases, Result, ok, err, ◌>>=◌, Post, Post-ok, Post-bind, any,
  keep, All,
}
use mathlib.Core.Bool.{true≢false}
use mathlib.Core.List.{Memᴰ}
use mathlib.Core.List.Memᴰ.{head, tail}
use systeme_local.Router.Eligible.{IsEligible, filter_of, filter-IsEligible, IsEligible-filter}
use systeme_local.Router.{
  BrainProfile, BrainRequest, RouteDecision, RouterError, Mode, autonomous_outbound, inbound_claim,
  handoff, first_of, by_id, preference, or_fallback, select_from, select, decision_for,
  outbound_eligible, inbound_eligible, handoff_eligible, select_outbound, select_inbound_claimant,
  select_interactive_handoff,
}
use systeme_local.Router.Choice.{preference-some, preference-given, select-IsChosen}

Mem-keep :
    (f : BrainProfile → Bool) (l : List BrainProfile) {p : BrainProfile}
    → Memᴰ p (keep f l)
    → Memᴰ p l × (f p ≡ true)
Mem-keep f [] m = elim m [ ]
Mem-keep f (q ∷ rest) {p} m = elim (Bool-cases (f q)) [
  | inr e ↦ let (k, t) = Mem-keep f rest (rw e at m) in (tail k, t)
  | inl e ↦
      let m' : Memᴰ p (q ∷ keep f rest) = rw e at m in
      elim m' [
        | head s ↦ (head s, rw s e)
        | tail k ↦ let (k', t) = Mem-keep f rest k in (tail k', t)
      ]
]

keep-Mem :
    (f : BrainProfile → Bool) (l : List BrainProfile) {p : BrainProfile}
    → Memᴰ p l
    → f p ≡ true
    → Memᴰ p (keep f l)
keep-Mem f [] m h = elim m [ ]
keep-Mem f (q ∷ rest) {p} m h = elim (Bool-cases (f q)) [
  | inl e ↦ elim m [ head s ↦ rw e (head s) | tail k ↦ rw e (tail (keep-Mem f rest k h)) ]
  | inr e ↦ elim m [
    | head s ↦ absurd (true≢false (sym h ∙ ap f s ∙ e))
    | tail k ↦ rw e (keep-Mem f rest k h)
  ]
]

All-kept :
    (f : BrainProfile → Bool) (n : ℕ) (l : List BrainProfile)
    → All (λ (q : BrainProfile). q.priority ≤ n) (keep f l)
    → All (λ (q : BrainProfile). f q ≡ true → q.priority ≤ n) l
All-kept f n [] h = tt
All-kept f n (q ∷ rest) h = elim (Bool-cases (f q)) [
  | inl e ↦
      let k : All (λ (x : BrainProfile). x.priority ≤ n) (q ∷ keep f rest) = rw e at h in
      ((λ _. k.0), All-kept f n rest k.1)
  | inr e ↦ ((λ t. ground (arith, t, e)), All-kept f n rest (rw e at h))
]

All-weaken :
    (P Q : BrainProfile → Type 0)
    → ((q : BrainProfile) → P q → Q q)
    → (l : List BrainProfile) → All P l
    → All Q l
All-weaken P Q f [] h = tt
All-weaken P Q f (q ∷ rest) h = (f q h.0, All-weaken P Q f rest h.1)

-- A decision, with the profile that it stands for: one of those given that is eligible. The
-- preferred provider is chosen where one of its profiles is eligible, and no other where the
-- request allows no fallback; any other choice has the highest priority of the eligible.
pub record IsRouted (mode : Mode) (request : BrainRequest) (profiles : List BrainProfile)
    (d : RouteDecision) : Type 0 where
  pub chosen : BrainProfile
  pub member : Memᴰ chosen profiles
  pub eligible : IsEligible mode request chosen
  pub same_provider : d.provider_id ≡ chosen.provider_id
  pub same_transport : d.transport ≡ chosen.transport
  pub same_mode : d.mode ≡ mode
  pub preferred :
      (id : String)
      → request.preferred_provider_id ≡ some id
      → id ≢ ""
      → (q : BrainProfile) → Memᴰ q profiles
      → IsEligible mode request q
      → q.provider_id ≡ id
      → d.provider_id ≡ id
  pub no_fallback :
      (id : String)
      → request.preferred_provider_id ≡ some id
      → id ≢ ""
      → request.allow_fallback ≡ false
      → d.provider_id ≡ id
  pub best :
      (request.preferred_provider_id ≡ some d.provider_id)
      ⊎ All
          (λ (q : BrainProfile). IsEligible mode request q → q.priority ≤ chosen.priority)
          profiles

routed :
    (mode : Mode) (request : BrainRequest) (profiles : List BrainProfile)
    → Post (IsRouted mode request profiles) (
        select request (keep (filter_of mode request) profiles)
        >>= (λ p. ok (decision_for mode request p)))
unfolding decision_for
routed mode request profiles =
    let fits = filter_of mode request in
    Post-bind (select request (keep fits profiles)) _ (λ p e.
      let c = (select-IsChosen request (keep fits profiles)).at p e in
      let (m, f) = Mem-keep fits profiles c.member in
      Post-ok (record {
        chosen = p;
        member = m;
        eligible = filter-IsEligible mode request p f;
        same_provider = refl;
        same_transport = refl;
        same_mode = refl;
        preferred = λ id w filled q mem el own.
            c.preferred id (preference-given request.preferred_provider_id id w filled) q
              (keep-Mem fits profiles mem (IsEligible-filter mode request q el)) own;
        no_fallback = λ id w filled strict.
            c.no_fallback id (preference-given request.preferred_provider_id id w filled) strict;
        best = elim c.best [
          | inl own ↦ inl (preference-some request.preferred_provider_id p.provider_id own)
          | inr most ↦ inr (
              All-weaken _ _ (λ q le el. le (IsEligible-filter mode request q el)) profiles
                (All-kept fits p.priority profiles most))
        ];
      }))

-- A decision of one of the three selections names a given profile that is enabled, has room for
-- another task, has the capability, is allowed the class of data, and is an official API that is
-- available or degraded (outbound), an MCP client that is available, degraded or unknown (inbound),
-- or interactive and neither offline nor without quota (handoff). Where a profile of the preferred
-- provider is so too, or no fallback is allowed, the decision names the preferred provider; a
-- decision that does not name it has the highest priority of the profiles that are so.
pub selections-IsRouted :
    (request : BrainRequest) (profiles : List BrainProfile)
    → Post (IsRouted autonomous_outbound request profiles) (select_outbound request profiles)
      × Post (IsRouted inbound_claim request profiles) (select_inbound_claimant request profiles)
      × Post (IsRouted handoff request profiles) (select_interactive_handoff request profiles)
unfolding select_outbound select_inbound_claimant select_interactive_handoff
selections-IsRouted request profiles = (
  routed autonomous_outbound request profiles,
  routed inbound_claim request profiles,
  routed handoff request profiles,
)

abbrev pub answered {ℓ} : {A : Type ℓ} → Result RouterError A → Bool
answered (ok a) = true
answered (err e) = false

or_fallback-answered :
    (first : BrainProfile) (o : Option BrainProfile) → answered (or_fallback true first o) ≡ true
unfolding or_fallback
or_fallback-answered first none = refl
or_fallback-answered first (some p) = refl

abbrev is_cons : List BrainProfile → Bool
is_cons [] = false
is_cons (p ∷ rest) = true

select_from-answered :
    (request : BrainRequest) (wanted : Option String) (l : List BrainProfile)
    → request.allow_fallback ≡ true
    → answered (select_from request wanted l) ≡ is_cons l
unfolding select_from
select_from-answered request wanted [] h = refl
select_from-answered request none (p ∷ rest) h = refl
select_from-answered request (some id) (p ∷ rest) h =
    rw h (or_fallback-answered (first_of p rest) (by_id id (p ∷ rest)))

is_cons-keep : (f : BrainProfile → Bool) (l : List BrainProfile) → is_cons (keep f l) ≡ any f l
is_cons-keep f [] = refl
is_cons-keep f (p ∷ rest) = elim (Bool-cases (f p)) [
  | inl e ↦ rw e refl
  | inr e ↦ rw e (is_cons-keep f rest)
]

bind-answered :
    (r : Result RouterError BrainProfile) (f : BrainProfile → RouteDecision)
    → answered (r >>= (λ p. ok (f p))) ≡ answered r
bind-answered (ok p) f = refl
bind-answered (err e) f = refl

answers :
    (request : BrainRequest) (fits : BrainProfile → Bool) (mode : Mode)
    (profiles : List BrainProfile)
    → request.allow_fallback ≡ true
    → answered (select request (keep fits profiles) >>= (λ p. ok (decision_for mode request p)))
      ≡ any fits profiles
unfolding select
answers request fits mode profiles h =
    bind-answered (select request (keep fits profiles)) (decision_for mode request)
    ∙ select_from-answered request (preference request.preferred_provider_id) (keep fits profiles) h
    ∙ is_cons-keep fits profiles

-- Where a request allows a fallback, each of the three selections returns a decision exactly if one
-- of the given profiles is eligible for it, and raises otherwise.
pub answers_iff :
    (request : BrainRequest) (profiles : List BrainProfile)
    → request.allow_fallback ≡ true
    → (answered (select_outbound request profiles) ≡ any (outbound_eligible request) profiles)
      × (answered (select_inbound_claimant request profiles)
          ≡ any (inbound_eligible request) profiles)
      × (answered (select_interactive_handoff request profiles)
          ≡ any (handoff_eligible request) profiles)
unfolding select_outbound select_inbound_claimant select_interactive_handoff
answers_iff request profiles h = (
  answers request (outbound_eligible request) autonomous_outbound profiles h,
  answers request (inbound_eligible request) inbound_claim profiles h,
  answers request (handoff_eligible request) handoff profiles h,
)
