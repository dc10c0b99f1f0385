-- ===== src/Replay/Refinement.antt =====
-- The database guard answers as the guard in memory does.
use systeme_local.Prelude.{
  ℕ, suc, ◌≤◌, String, ◌≡◌, refl, sym, ap, ◌∙◌, inl, inr, true, List, [], ◌∷◌, ◌++◌, map, arith,
  eq_iff, leb, Bool-cases, length, any, keep, All, All-keep, keep-keep,
}
use mathlib.Core.List.{map-append}
use systeme_local.Replay.Clock.{datetime_to_microseconds}
use systeme_local.Replay.{
  ReplayGuard, unexpired, has_nonce, purge, check_and_mark, NonceRow, Database, row_unexpired,
  row_has_nonce, delete_expired_nonces, mark_unexpired, sqlite_check_and_mark,
}

-- What a row says: a nonce's digest and when it expires.
abbrev pub row_view : NonceRow → String × ℕ
row_view row = (row.nonce_hmac, row.expires_at_us)

abbrev pub digest_view : (String → String) → String × ℕ → String × ℕ
digest_view fp e = (fp e.0, e.1)

length-map' : {A B : Type 0} (f : A → B) (l : List A) → length (map f l) ≡ length l
length-map' f [] = refl
length-map' f (x ∷ l) = ap suc (length-map' f l)

any-row_view :
    (d : String) (rows : List NonceRow)
    → any (has_nonce d) (map row_view rows) ≡ any (row_has_nonce d) rows
any-row_view d [] = refl
any-row_view d (r ∷ rows) = ground (arith, any-row_view d rows)

keep-row_view :
    (t : ℕ) (rows : List NonceRow)
    → keep (unexpired t) (map row_view rows) ≡ map row_view (keep (row_unexpired t) rows)
keep-row_view t [] = refl
keep-row_view t (r ∷ rows) = ground (arith, keep-row_view t rows)

keep-digest_view :
    (fp : String → String) (t : ℕ) (l : List (String × ℕ))
    → keep (unexpired t) (map (digest_view fp) l) ≡ map (digest_view fp) (keep (unexpired t) l)
keep-digest_view fp t [] = refl
keep-digest_view fp t (r ∷ rows) = ground (arith, keep-digest_view fp t rows)

-- The digest of a nonce is none of the other nonces' in a list.
abbrev pub TellsApart : (String → String) → String → List (String × ℕ) → Type 0
TellsApart fp n l = All (λ x. fp x.0 ≡ fp n → x.0 ≡ n) l

any-digest_view :
    (fp : String → String) (n : String) (l : List (String × ℕ))
    → TellsApart fp n l
    → any (has_nonce (fp n)) (map (digest_view fp) l) ≡ any (has_nonce n) l
any-digest_view fp n [] apart = refl
any-digest_view fp n (x ∷ l) apart =
    let same = any-digest_view fp n l apart.1 in
    ground (arith, same, eq_iff (fp x.0) (fp n), eq_iff x.0 n, apart.0)

-- At the time `now` the table holds the digests of the nonces that the dictionary holds.
pub record Agrees (fp : String → String) (now : ℕ) (g : ReplayGuard) (db : Database) : Type 0 where
  pub live :
      keep (unexpired now) (map (digest_view fp) g.seen)
      ≡ keep (unexpired now) (map row_view db.seen_nonces)

unexpired_earlier :
    (now later : ℕ)
    → now ≤ later
    → (x : String × ℕ) → unexpired later x ≡ true
    → unexpired now x ≡ true
unexpired_earlier now later h x p = ground arith

keep_later :
    (now later : ℕ)
    → now ≤ later
    → (l k : List (String × ℕ)) → keep (unexpired now) l ≡ keep (unexpired now) k
    → keep (unexpired later) l ≡ keep (unexpired later) k
keep_later now later h l k p =
    sym (keep-keep (unexpired now) (unexpired later) (unexpired_earlier now later h) l)
    ∙ ap (keep (unexpired later)) p
    ∙ keep-keep (unexpired now) (unexpired later) (unexpired_earlier now later h) k

module _ (fp : String → String) (now : ℕ) (g : ReplayGuard) (db : Database)
    (agrees : Agrees fp now g db) where
  purged_views :
      map (digest_view fp) (purge now g).seen
      ≡ map row_view (delete_expired_nonces fp g.max_entries now db).seen_nonces
  unfolding purge delete_expired_nonces
  purged_views =
      sym (keep-digest_view fp now g.seen) ∙ agrees.live ∙ keep-row_view now db.seen_nonces

  purged-TellsApart : (n : String) → TellsApart fp n g.seen → TellsApart fp n (purge now g).seen
  unfolding purge
  purged-TellsApart n apart = All-keep _ (unexpired now) g.seen apart

  same_any :
      (n : String)
      → TellsApart fp n g.seen
      → any (row_has_nonce (fp n)) (delete_expired_nonces fp g.max_entries now db).seen_nonces
        ≡ any (has_nonce n) (purge now g).seen
  same_any n apart =
      sym (any-row_view (fp n) _)
      ∙ ap (any (has_nonce (fp n))) (sym purged_views)
      ∙ any-digest_view fp n (purge now g).seen (purged-TellsApart n apart)

  same_length :
      length (delete_expired_nonces fp g.max_entries now db).seen_nonces ≡ length (purge now g).seen
  same_length =
      sym (length-map' row_view _)
      ∙ ap length (sym purged_views)
      ∙ length-map' (digest_view fp) (purge now g).seen

  same_max : (purge now g).max_entries ≡ g.max_entries
  unfolding purge
  same_max = refl

  purged-Agrees : (later : ℕ) → now ≤ later → Agrees fp later (purge now g) db
  unfolding purge
  purged-Agrees later h = record {
    live =
        ap (keep (unexpired later)) (sym (keep-digest_view fp now g.seen))
        ∙ keep-keep (unexpired now) (unexpired later) (unexpired_earlier now later h)
            (map (digest_view fp) g.seen)
        ∙ keep_later now later h _ _ agrees.live;
  }

  marked-Agrees :
      (n : String) (e later : ℕ)
      → Agrees fp later
          (record (purge now g) { seen = (purge now g).seen ++ (n, e) ∷ [] })
          (record (delete_expired_nonces fp g.max_entries now db) {
            seen_nonces =
                (delete_expired_nonces fp g.max_entries now db).seen_nonces
                ++ record { nonce_hmac = fp n; expires_at_us = e; created_at_us = now } ∷ [];
          })
  marked-Agrees n e later = record {
    live = ap (keep (unexpired later)) (
        map-append (digest_view fp) (purge now g).seen ((n, e) ∷ [])
        ∙ ap (λ l. l ++ (fp n, e) ∷ []) purged_views
        ∙ sym (
            map-append row_view (delete_expired_nonces fp g.max_entries now db).seen_nonces
              (record { nonce_hmac = fp n; expires_at_us = e; created_at_us = now } ∷ [])));
  }

  converted_refines :
      (nonce : String) (e later : ℕ)
      → TellsApart fp nonce g.seen
      → now ≤ later
      → ((mark_unexpired fp g.max_entries now nonce e db).0 ≡ (check_and_mark now nonce e g).0)
        × Agrees fp later
            (check_and_mark now nonce e g).1
            (mark_unexpired fp g.max_entries now nonce e db).1
  unfolding check_and_mark mark_unexpired purge
  converted_refines nonce e later apart h = elim (Bool-cases (leb e now)) [
    | inl late ↦ rw late (refl, record { live = keep_later now later h _ _ agrees.live })
    | inr alive ↦ elim (Bool-cases (any (has_nonce nonce) (purge now g).seen)) [
      | inl f ↦ rw (alive, same_any nonce apart, f) (refl, purged-Agrees later h)
      | inr f ↦ elim (Bool-cases (leb g.max_entries (length (purge now g).seen))) [
        | inl r ↦
            rw (alive, same_any nonce apart, f, same_length, same_max, r)
              (refl, purged-Agrees later h)
        | inr r ↦
            rw (alive, same_any nonce apart, f, same_length, same_max, r)
              (refl, marked-Agrees nonce e later)
      ]
    ]
  ]

-- From states that agree at the converted time of the clock, with the same capacity, and where the
-- nonce's digest is not that of another nonce in memory: the guard in the database returns or raises
-- what the guard in memory does for the times that `_datetime_to_microseconds` gives for the clock
-- and the expiry, and the two states that they leave agree at any later time.
pub sqlite-refines-memory :
    (fp : String → String) (now : ℕ) (g : ReplayGuard) (db : Database)
    → Agrees fp (datetime_to_microseconds now) g db
    → (nonce : String) (e later : ℕ) → TellsApart fp nonce g.seen
    → datetime_to_microseconds now ≤ later
    → ((sqlite_check_and_mark fp g.max_entries now nonce e db).0
        ≡ (check_and_mark (datetime_to_microseconds now) nonce (datetime_to_microseconds e) g).0)
      × Agrees fp later
          (check_and_mark (datetime_to_microseconds now) nonce (datetime_to_microseconds e) g).1
          (sqlite_check_and_mark fp g.max_entries now nonce e db).1
unfolding sqlite_check_and_mark
sqlite-refines-memory fp now g db agrees nonce e later apart h =
    converted_refines fp (datetime_to_microseconds now) g db agrees nonce
      (datetime_to_microseconds e) later apart h
