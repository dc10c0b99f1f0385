-- ===== src/Replay/Once.antt =====
-- A nonce that was accepted is refused until it expires.
use systeme_local.Prelude.{
  ℕ, suc, ◌<◌, String, ◌≡◌, refl, Bool, true, false, ◌&&◌, List, [], ◌∷◌, arith, str_eq, eq_iff,
  leb, if◌then◌else◌, ◌≢◌, Result, ok, err, Method, any, keep, All, any-append,
}
use systeme_local.Replay.{ReplayGuard, ReplayError, unexpired, has_nonce, purge, check_and_mark}

-- A call of `check_and_mark`, with the clock's reading.
pub record Request : Type 0 where
  pub now : ℕ
  pub nonce : String
  pub expires_at : ℕ

abbrev pub call : Request → Method ReplayGuard ReplayError (Unit {0})
call r = check_and_mark r.now r.nonce r.expires_at

abbrev pub is_ok : Result ReplayError (Unit {0}) → Bool
is_ok (ok _) = true
is_ok (err _) = false

-- How many of the calls that carry the nonce are accepted, one call after the other.
pub accepted : String → ReplayGuard → List Request → ℕ
accepted nonce g [] = 0
accepted nonce g (r ∷ rs) =
    let rest = accepted nonce (call r g).1 rs in
    if is_ok (call r g).0 && str_eq r.nonce nonce then suc rest else rest

-- The guard remembers the nonce up to the time `e` at least.
abbrev remembers : String → ℕ → String × ℕ → Bool
remembers nonce e entry = str_eq entry.0 nonce && leb e entry.1

any-remembers-keep :
    (nonce : String) (e now : ℕ) (l : List (String × ℕ))
    → now < e
    → any (remembers nonce e) l ≡ true
    → any (remembers nonce e) (keep (unexpired now) l) ≡ true
any-remembers-keep nonce e now [] before h = cc
any-remembers-keep nonce e now (x ∷ l) before h =
    ground (arith, any-remembers-keep nonce e now l before)

any-has_nonce :
    (nonce : String) (e : ℕ) (l : List (String × ℕ))
    → any (remembers nonce e) l ≡ true
    → any (has_nonce nonce) l ≡ true
any-has_nonce nonce e [] h = cc
any-has_nonce nonce e (x ∷ l) h = ground (arith, any-has_nonce nonce e l)

purge-remembers :
    (nonce : String) (e now : ℕ) (g : ReplayGuard)
    → now < e
    → any (remembers nonce e) g.seen ≡ true
    → any (remembers nonce e) (purge now g).seen ≡ true
unfolding purge
purge-remembers nonce e now g before h = any-remembers-keep nonce e now g.seen before h

-- While it remembers, a call keeps the memory, and a call with the nonce is refused.
call-remembers :
    (nonce : String) (e : ℕ) (r : Request) (g : ReplayGuard)
    → r.now < e
    → any (remembers nonce e) g.seen ≡ true
    → (any (remembers nonce e) (call r g).1.seen ≡ true)
      × ((is_ok (call r g).0 && str_eq r.nonce nonce) ≡ false)
unfolding check_and_mark
call-remembers nonce e r g before h = ground (
  arith,
  eq_iff r.nonce nonce,
  any-has_nonce nonce e (purge r.now g).seen,
  purge-remembers nonce e r.now g,
  any-append (remembers nonce e) (purge r.now g).seen ((r.nonce, r.expires_at) ∷ []),
)

accepted-remembers :
    (nonce : String) (e : ℕ) (g : ReplayGuard) (rs : List Request)
    → any (remembers nonce e) g.seen ≡ true
    → All (λ r. r.now < e) rs
    → accepted nonce g rs ≡ 0
unfolding accepted
accepted-remembers nonce e g [] h before = refl
accepted-remembers nonce e g (r ∷ rs) h before =
    let (k, refused) = call-remembers nonce e r g before.0 h in
    rw refused (accepted-remembers nonce e (call r g).1 rs k before.1)

check-remembers :
    (now : ℕ) (nonce : String) (e : ℕ) (g : ReplayGuard)
    → (check_and_mark now nonce e g).0 ≡ ok tt
    → any (remembers nonce e) (check_and_mark now nonce e g).1.seen ≡ true
unfolding check_and_mark
check-remembers now nonce e g h =
    ground (
      arith,
      eq_iff nonce nonce,
      any-append (remembers nonce e) (purge now g).seen ((nonce, e) ∷ []),
    )

-- Once `check_and_mark` has accepted a nonce with an expiry time, it accepts that nonce in none of
-- the calls that follow, whatever they are and in whatever order their clocks stand, as long as
-- each is made before that expiry time.
pub no_replay :
    (now : ℕ) (nonce : String) (e : ℕ) (g : ReplayGuard) (rs : List Request)
    → (check_and_mark now nonce e g).0 ≡ ok tt
    → All (λ r. r.now < e) rs
    → accepted nonce (check_and_mark now nonce e g).1 rs ≡ 0
no_replay now nonce e g rs h before =
    accepted-remembers nonce e (check_and_mark now nonce e g).1 rs (check-remembers now nonce e g h)
      before

-- The guard after some calls.
pub after : ReplayGuard → List Request → ReplayGuard
after g [] = g
after g (r ∷ rs) = after (call r g).1 rs

after-remembers :
    (nonce : String) (e : ℕ) (g : ReplayGuard) (rs : List Request)
    → any (remembers nonce e) g.seen ≡ true
    → All (λ r. r.now < e) rs
    → any (remembers nonce e) (after g rs).seen ≡ true
unfolding after
after-remembers nonce e g [] h before = h
after-remembers nonce e g (r ∷ rs) h before =
    after-remembers nonce e (call r g).1 rs (call-remembers nonce e r g before.0 h).0 before.1

-- The next call with an accepted nonce raises.
pub marked_again :
    (now : ℕ) (nonce : String) (e : ℕ) (g : ReplayGuard) (rs : List Request) (now' : ℕ)
    → (check_and_mark now nonce e g).0 ≡ ok tt
    → All (λ r. r.now < e) rs
    → now' < e
    → (check_and_mark now' nonce e (after (check_and_mark now nonce e g).1 rs)).0 ≢ ok tt
marked_again now nonce e g rs now' h before alive again =
    let k = after-remembers nonce e _ rs (check-remembers now nonce e g h) before in
    let (_, refused) =
      call-remembers nonce e (record { now = now'; nonce = nonce; expires_at = e })
        (after (check_and_mark now nonce e g).1 rs) alive k in
    ground (arith, refused, again, eq_iff nonce nonce)
