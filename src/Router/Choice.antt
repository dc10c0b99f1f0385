-- ===== src/Router/Choice.antt =====
-- What `_select` of brains/router.py chooses from the eligible profiles.
use systeme_local.Prelude.{
  ◌≤◌, String, ◌≡◌, refl, sym, ap, ◌∙◌, ◌≢◌, ◌⊎◌, inl, inr, Bool, true, false, Option, none, some,
  List, [], ◌∷◌, arith, eq_iff, if◌then◌else◌, Bool-cases, Option-cases, Post, Post-ok, Post-err,
  All,
}
use mathlib.Core.Path.{subst}
use mathlib.Core.List.{Memᴰ}
use mathlib.Core.List.Memᴰ.{head, tail}
use systeme_local.Router.{
  BrainProfile, BrainRequest, no_eligible_brain, comes_before, first_of, by_id, preference,
  or_fallback, select_from, select,
}

first_of-Mem : (best : BrainProfile) (l : List BrainProfile) → Memᴰ (first_of best l) (best ∷ l)
unfolding first_of
first_of-Mem best [] = head refl
first_of-Mem best (p ∷ rest) = elim (Bool-cases (comes_before p best)) [
  | inl e ↦ rw e (tail (first_of-Mem p rest))
  | inr e ↦ rw e (elim (first_of-Mem best rest) [ head q ↦ head q | tail m ↦ tail (tail m) ])
]

first_of-step :
    (b : Bool) (best p : BrainProfile) (rest : List BrainProfile)
    → comes_before p best ≡ b
    → first_of (if b then p else best) rest ≡ first_of best (p ∷ rest)
unfolding first_of
first_of-step b best p rest h = ap (λ c. first_of (if c then p else best) rest) (sym h)

IsMost : List BrainProfile → BrainProfile → Type 0
IsMost l f = All (λ (q : BrainProfile). q.priority ≤ f.priority) l

first_of-IsMost :
    (best : BrainProfile) (l : List BrainProfile) → IsMost (best ∷ l) (first_of best l)
unfolding first_of IsMost
first_of-IsMost best [] = (omega arith, tt)
first_of-IsMost best (p ∷ rest) = elim (Bool-cases (comes_before p best)) [
  | inl e ↦
      let (a, b) = first_of-IsMost p rest in
      let le : best.priority ≤ p.priority = ground arith in
      subst (IsMost (best ∷ p ∷ rest)) (first_of-step true best p rest e) (omega arith, (a, b))
  | inr e ↦
      let (a, b) = first_of-IsMost best rest in
      let le : p.priority ≤ best.priority = ground arith in
      subst (IsMost (best ∷ p ∷ rest)) (first_of-step false best p rest e) (a, (omega arith, b))
]

by_id-ok :
    (id : String) (l : List BrainProfile) (p : BrainProfile)
    → by_id id l ≡ some p
    → Memᴰ p l × (p.provider_id ≡ id)
unfolding by_id
by_id-ok id [] p h = cc
by_id-ok id (q ∷ rest) p h = elim (Option-cases (by_id id rest)) [
  | inr (later, e) ↦
      let (m, same) = by_id-ok id rest later e in
      let k : later ≡ p = ground arith in
      subst (λ x. Memᴰ x (q ∷ rest) × (x.provider_id ≡ id)) k (tail m, same)
  | inl e ↦
      let k : (q ≡ p) × (q.provider_id ≡ id) = ground (arith, eq_iff q.provider_id id) in
      (head (sym k.0), ap (λ (x : BrainProfile). x.provider_id) (sym k.0) ∙ k.1)
]

by_id-none :
    (id : String) (l : List BrainProfile) (q : BrainProfile)
    → by_id id l ≡ none
    → Memᴰ q l
    → q.provider_id ≢ id
unfolding by_id
by_id-none id [] q h m e = elim m [ ]
by_id-none id (p ∷ rest) q h m e = elim (Option-cases (by_id id rest)) [
  | inr (later, found) ↦ ground arith
  | inl gone ↦ elim m [
    | head same ↦
        let own : p.provider_id ≡ id = ap (λ (x : BrainProfile). x.provider_id) (sym same) ∙ e in
        ground (arith, eq_iff p.provider_id id)
    | tail k ↦ by_id-none id rest q gone k e
  ]
]

pub preference-some : (o : Option String) (id : String) → preference o ≡ some id → o ≡ some id
preference-some none id h = cc
preference-some (some t) id h = ground arith

pub preference-given :
    (o : Option String) (id : String) → o ≡ some id → id ≢ "" → preference o ≡ some id
preference-given none id h filled = cc
preference-given (some t) id h filled =
    let same : t ≡ id = cc in ground (arith, eq_iff t "", eq_iff id "")

-- The chosen profile is one of the eligible. It is the preferred one where that is eligible or no
-- fallback is allowed; and it is the preferred one, or none has a higher priority.
pub record IsChosen (request : BrainRequest) (wanted : Option String) (l : List BrainProfile)
    (p : BrainProfile) : Type 0 where
  pub member : Memᴰ p l
  pub preferred :
      (id : String)
      → wanted ≡ some id
      → (q : BrainProfile) → Memᴰ q l
      → q.provider_id ≡ id
      → p.provider_id ≡ id
  pub no_fallback :
      (id : String) → wanted ≡ some id → request.allow_fallback ≡ false → p.provider_id ≡ id
  pub best : (wanted ≡ some p.provider_id) ⊎ All (λ (q : BrainProfile). q.priority ≤ p.priority) l

some-same : (a b : String) → ◌≡◌ {A = Option String} (some a) (some b) → a ≡ b
some-same a b h = cc

or_fallback-IsChosen :
    (request : BrainRequest) (id : String) (first : BrainProfile) (rest : List BrainProfile)
    (o : Option BrainProfile)
    → by_id id (first ∷ rest) ≡ o
    → (allow : Bool) → request.allow_fallback ≡ allow
    → Post (IsChosen request (some id) (first ∷ rest)) (or_fallback allow (first_of first rest) o)
unfolding or_fallback IsMost
or_fallback-IsChosen request id first rest (some p) h allow e =
    let (m, own) = by_id-ok id (first ∷ rest) p h in
    Post-ok (record {
      member = m;
      preferred = λ i w q mem same. own ∙ some-same id i w;
      no_fallback = λ i w strict. own ∙ some-same id i w;
      best = inl (ap some (sym own));
    })
or_fallback-IsChosen request id first rest none h true e = Post-ok (record {
  member = first_of-Mem first rest;
  preferred = λ i w q mem same.
      absurd (by_id-none id (first ∷ rest) q h mem (same ∙ sym (some-same id i w)));
  no_fallback = λ i w strict. cc;
  best = inr (first_of-IsMost first rest);
})
or_fallback-IsChosen request id first rest none h false e = Post-err no_eligible_brain

select_from-IsChosen :
    (request : BrainRequest) (wanted : Option String) (l : List BrainProfile)
    → Post (IsChosen request wanted l) (select_from request wanted l)
unfolding select_from IsMost
select_from-IsChosen request wanted [] = Post-err no_eligible_brain
select_from-IsChosen request none (p ∷ rest) = Post-ok (record {
  member = first_of-Mem p rest;
  preferred = λ i w q mem same. cc;
  no_fallback = λ i w strict. cc;
  best = inr (first_of-IsMost p rest);
})
select_from-IsChosen request (some id) (p ∷ rest) =
    or_fallback-IsChosen request id p rest (by_id id (p ∷ rest)) refl request.allow_fallback refl

pub select-IsChosen :
    (request : BrainRequest) (l : List BrainProfile)
    → Post (IsChosen request (preference request.preferred_provider_id) l) (select request l)
unfolding select
select-IsChosen request l =
    select_from-IsChosen request (preference request.preferred_provider_id) l
