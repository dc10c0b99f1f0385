-- ===== src/Audit/Tamper.antt =====
-- The log as evidence: what two logs with one last HMAC have in common.
use systeme_local.Prelude.{
  bind-ok, String, ◌≡◌, refl, sym, ap, ◌∙◌, none, some, List, [], ◌∷◌, map, arith, Result, ok,
  length,
}
use systeme_local.Anchor.Files.{lines, object}
use systeme_local.Audit.{
  AuditError, AuditVerification, AuditRecord, AuditCalls, AuditScan, new_audit_scan,
  unsigned_record, scan_lines, verified_scan, scan_log, verify_log,
}
use systeme_local.Audit.Sound.{scan_lines-cons, scan_lines-counts}

module _ {V : Type 0} (calls : AuditCalls V) where
  -- No two records at one place have one HMAC, but different contents.
  unfoldable pub NoCollision : List String → List String → Type 0
  NoCollision (x ∷ xs) (y ∷ ys) =
      ((a b : AuditRecord V)
        → calls.loads x ≡ object a
        → calls.loads y ≡ object b
        → calls.entry_digest (unsigned_record calls a)
          ≡ calls.entry_digest (unsigned_record calls b)
        → unsigned_record calls a ≡ unsigned_record calls b)
      × NoCollision xs ys
  NoCollision _ _ = Unit

  signed_as :
      (r : AuditRecord V) (h : String)
      → r.entry_hmac ≡ some h
      → r ≡ record (unsigned_record calls r) { entry_hmac = some h }
  signed_as r h e = ap (λ o. record r { entry_hmac = o }) e

  same_record :
      (a b : AuditRecord V) (h : String)
      → a.entry_hmac ≡ some h
      → b.entry_hmac ≡ some h
      → unsigned_record calls a ≡ unsigned_record calls b
      → a ≡ b
  same_record a b h ea eb q =
      signed_as a h ea
      ∙ ap {A = AuditRecord V} (λ r. record r { entry_hmac = some h }) q
      ∙ sym (signed_as b h eb)

  same_lines :
      (xs ys : List String) (s t last last' : AuditScan)
      → NoCollision xs ys
      → length xs ≡ length ys
      → scan_lines calls none xs s ≡ ok last
      → scan_lines calls none ys t ≡ ok last'
      → last.previous_hmac ≡ last'.previous_hmac
      → (map calls.loads xs ≡ map calls.loads ys) × (s.previous_hmac ≡ t.previous_hmac)
  unfolding NoCollision scan_lines
  same_lines [] [] s t last last' free len h k e = (refl, cc)
  same_lines [] (y ∷ ys) s t last last' free len h k e = absurd (omega (arith, len))
  same_lines (x ∷ xs) [] s t last last' free len h k e = absurd (omega (arith, len))
  same_lines (x ∷ xs) (y ∷ ys) s t last last' free len h k e =
      let (s', c, h') = scan_lines-cons calls none x xs s last h in
      let (t', d, k') = scan_lines-cons calls none y ys t last' k in
      let (rest, hmac) = same_lines xs ys s' t' last last' free.1 (omega (arith, len)) h' k' e in
      let q = free.0 c.entry d.entry c.loaded d.loaded (sym c.digested ∙ hmac ∙ d.digested) in
      let same =
        same_record c.entry d.entry t'.previous_hmac (c.signed ∙ ap some hmac) d.signed q in
      let heads : calls.loads x ≡ calls.loads y = c.loaded ∙ ap object same ∙ sym d.loaded in
      (
        ap (λ z. z ∷ map calls.loads xs) heads ∙ ap (λ zs. calls.loads y ∷ zs) rest,
        let l = c.linked in let m = d.linked in cc,
      )

  verified_scan-ok :
      (s : AuditScan) (v : AuditVerification)
      → ◌≡◌ {A = Result AuditError AuditVerification} (ok (verified_scan calls s)) (ok v)
      → (s.records ≡ v.records) × (s.previous_hmac ≡ v.last_hmac)
  verified_scan-ok s v h = (cc, cc)

  -- Two files of lines that are verified to the same number of records and the same last HMAC hold
  -- the same records, line by line, where no two records at one place have one HMAC but different
  -- contents.
  pub same_hmac_same_log :
      (xs ys : List String) (v w : AuditVerification)
      → NoCollision xs ys
      → verify_log calls (lines xs) ≡ ok v
      → verify_log calls (lines ys) ≡ ok w
      → v.records ≡ w.records
      → v.last_hmac ≡ w.last_hmac
      → map calls.loads xs ≡ map calls.loads ys
  unfolding verify_log scan_log
  same_hmac_same_log xs ys v w free h k n e =
      let (s, hs, vs) =
        bind-ok (scan_lines calls none xs (new_audit_scan none)) (λ s. ok (verified_scan calls s))
          h in
      let (t, ht, wt) =
        bind-ok (scan_lines calls none ys (new_audit_scan none)) (λ s. ok (verified_scan calls s))
          k in
      let (count, last) = verified_scan-ok s v vs in
      let (count', last') = verified_scan-ok t w wt in
      let len : length xs ≡ length ys = omega (
        arith,
        scan_lines-counts calls none xs (new_audit_scan none) s hs,
        scan_lines-counts calls none ys (new_audit_scan none) t ht,
        n,
        count,
        count',
      ) in
      (same_lines xs ys (new_audit_scan none) (new_audit_scan none) s t free len hs ht
        (last ∙ e ∙ sym last')).0
