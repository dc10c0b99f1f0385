-- ===== src/Replay/Bounds.antt =====
-- The size and the keys of the replay guards' tables.
use systeme_local.Prelude.{
  ℕ, ◌≤◌, String, ◌≡◌, false, [], ◌∷◌, ◌++◌, arith, leb, length, length-append, any, length-keep,
  Distinct, Distinct-keep, Distinct-append, Bool-cases, inl, inr,
}
use systeme_local.Replay.{ReplayGuard, unexpired, has_nonce, purge, check_and_mark}

pub record IsBounded (g : ReplayGuard) : Type 0 where
  pub within : length g.seen ≤ g.max_entries
  pub one_each : Distinct (λ (e : String × ℕ). e.0) g.seen

pub purge-IsBounded : (now : ℕ) (g : ReplayGuard) → IsBounded g → IsBounded (purge now g)
unfolding purge
purge-IsBounded now g h = record {
  within = omega (arith, length-keep (unexpired now) g.seen, h.within);
  one_each = Distinct-keep (λ (e : String × ℕ). e.0) (unexpired now) g.seen h.one_each;
}

marked :
    (nonce : String) (expires : ℕ) (g : ReplayGuard)
    → IsBounded g
    → any (has_nonce nonce) g.seen ≡ false
    → leb g.max_entries (length g.seen) ≡ false
    → IsBounded (record g { seen = g.seen ++ (nonce, expires) ∷ [] })
marked nonce expires g h new room = record {
  within = ground (arith, length-append g.seen ((nonce, expires) ∷ []));
  one_each = Distinct-append (λ (e : String × ℕ). e.0) (nonce, expires) g.seen h.one_each new;
}

-- Whatever `check_and_mark` answers, the guard keeps at most `max_entries` nonces, each once.
pub check-IsBounded :
    (now : ℕ) (nonce : String) (expires : ℕ) (g : ReplayGuard)
    → IsBounded g
    → IsBounded (check_and_mark now nonce expires g).1
unfolding check_and_mark
check-IsBounded now nonce expires g h =
    let k = purge-IsBounded now g h in
    elim (Bool-cases (leb expires now)) [
      | inl e ↦ rw e h
      | inr e ↦ elim (Bool-cases (any (has_nonce nonce) (purge now g).seen)) [
        | inl f ↦ rw (e, f) k
        | inr f ↦ elim (Bool-cases (leb (purge now g).max_entries (length (purge now g).seen))) [
          | inl r ↦ rw (e, f, r) k
          | inr r ↦ rw (e, f, r) (marked nonce expires (purge now g) k f r)
        ]
      ]
    ]
