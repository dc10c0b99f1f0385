-- ===== src/Audit/Sound.antt =====
-- What a line that is accepted says, and the loop over the lines.
use systeme_local.Prelude.{
  bind-ok, ℕ, zero, suc, ◌+◌, ◌≤◌, String, ◌≡◌, refl, sym, ◌∙◌, inl, inr, false, not, Option, none,
  some, List, [], ◌∷◌, arith, str_eq, eq_iff, if◌then◌else◌, Option-cases, ok, raise_if, Post,
  Post-ok, Post-bind, Post-then, raise_if-ok, length,
}
use mathlib.Core.Path.{subst}
use systeme_local.Anchor.Files.{
  LogFile, missing, irregular, unterminated, lines, Loaded, not_json, not_object, object,
}
use systeme_local.Anchor.{AnchorVerification, genesis_hmac, text_or_raise, is_number, is_text, mem}
use systeme_local.Anchor.Grows.{is_text-eq}
use systeme_local.Audit.{
  AuditError, audit_integrity, AuditVerification, AuditRecord, AuditCalls, AuditScan, is_at,
  start_hmac, new_audit_scan, unsigned_record, as_record, check_record, scan_line, scan_lines,
  scan_log, check_against, scan_against,
}

is_number-eq : (n : ℕ) (o : Option ℕ) → not (is_number n o) ≡ false → o ≡ some n
is_number-eq n none h = cc
is_number-eq n (some m) h = ground arith

text_or_raise-ok :
    (e : AuditError) (o : Option String) (s : String) → text_or_raise e o ≡ ok s → o ≡ some s
text_or_raise-ok e none s h = cc
text_or_raise-ok e (some t) s h = cc

module _ {V : Type 0} (calls : AuditCalls V) where
  -- what a line that is accepted says, and what it leaves
  pub record IsChained (checkpoint : Option ℕ) (line : String) (scan scan' : AuditScan)
      : Type 0 where
    pub entry : AuditRecord V
    pub loaded : calls.loads line ≡ object entry
    pub version : entry.version ≡ some 2
    pub linked : entry.previous_hmac ≡ some scan.previous_hmac
    pub signed : entry.entry_hmac ≡ some scan'.previous_hmac
    pub digested : scan'.previous_hmac ≡ calls.entry_digest (unsigned_record calls entry)
    pub counted : scan'.records ≡ scan.records + 1
    pub marked : scan'.checkpoint_hmac ≡ (
        if is_at checkpoint (scan.records + 1)
        then some scan'.previous_hmac
        else scan.checkpoint_hmac)

  scan_line-loads :
      (checkpoint : Option ℕ) (line : String) (r : AuditRecord V)
      → as_record calls (calls.loads line) ≡ ok r
      → calls.loads line ≡ object r
  scan_line-loads checkpoint line r h = ground arith

  check_record-IsChained :
      (checkpoint : Option ℕ) (line : String) (r : AuditRecord V) (scan : AuditScan)
      → calls.loads line ≡ object r
      → Post (IsChained checkpoint line scan) (check_record calls checkpoint r scan)
  unfolding check_record
  check_record-IsChained checkpoint line r scan loaded =
      Post-then (raise_if (not (is_number 2 r.version)) audit_integrity) _ (λ e1.
        Post-then (raise_if (not (is_text scan.previous_hmac r.previous_hmac)) audit_integrity) _
          (λ e2. Post-bind (text_or_raise audit_integrity r.entry_hmac) _ (λ h e3.
            Post-then
              (raise_if (not (str_eq h (calls.entry_digest (unsigned_record calls r))))
                audit_integrity)
              _
              (λ e4. Post-bind (text_or_raise audit_integrity r.audit_id) _ (λ id e5.
                Post-then (raise_if (mem id scan.audit_ids) audit_integrity) _ (λ e6.
                  Post-ok (record {
                    entry = r;
                    loaded = loaded;
                    version = is_number-eq 2 r.version (raise_if-ok _ _ e1);
                    linked = is_text-eq scan.previous_hmac r.previous_hmac (raise_if-ok _ _ e2);
                    signed = text_or_raise-ok _ r.entry_hmac h e3;
                    digested =
                        let t = raise_if-ok _ _ e4 in
                        ground (arith, eq_iff h (calls.entry_digest (unsigned_record calls r)));
                    counted = refl;
                    marked = refl;
                  })))))))

  pub scan_line-IsChained :
      (checkpoint : Option ℕ) (line : String) (scan : AuditScan)
      → Post (IsChained checkpoint line scan) (scan_line calls checkpoint line scan)
  unfolding scan_line
  scan_line-IsChained checkpoint line scan =
      Post-then (raise_if (str_eq line "") audit_integrity) _ (λ e1.
        Post-bind (as_record calls (calls.loads line)) _ (λ r e2. record {
          at = λ s q.
              (check_record-IsChained checkpoint line r scan
                  (scan_line-loads checkpoint line r e2)).at
                s q;
        }))

  -- the loop, a line at a time
  pub scan_lines-cons :
      (checkpoint : Option ℕ) (line : String) (rest : List String) (scan last : AuditScan)
      → scan_lines calls checkpoint (line ∷ rest) scan ≡ ok last
      → (mid : AuditScan) × IsChained checkpoint line scan mid
        × (scan_lines calls checkpoint rest mid ≡ ok last)
  unfolding scan_lines
  scan_lines-cons checkpoint line rest scan last h =
      let (mid, e, k) =
        bind-ok (scan_line calls checkpoint line scan) (scan_lines calls checkpoint rest) h in
      (mid, (scan_line-IsChained checkpoint line scan).at mid e, k)

  pub scan_lines-counts :
      (checkpoint : Option ℕ) (xs : List String) (scan last : AuditScan)
      → scan_lines calls checkpoint xs scan ≡ ok last
      → last.records ≡ scan.records + length xs
  unfolding scan_lines
  scan_lines-counts checkpoint [] scan last h = ground arith
  scan_lines-counts checkpoint (x ∷ xs) scan last h =
      let (mid, chained, k) = scan_lines-cons checkpoint x xs scan last h in
      omega (arith, scan_lines-counts checkpoint xs mid last k, chained.counted)

  -- The HMAC of the record at a place, and of the log after a number of records.
  pub entry_of : Loaded (AuditRecord V) → Option String
  entry_of not_json = none
  entry_of not_object = none
  entry_of (object r) = r.entry_hmac

  pub nth_hmac : ℕ → List String → Option String
  unfolding entry_of
  nth_hmac n [] = none
  nth_hmac zero (x ∷ xs) = entry_of (calls.loads x)
  nth_hmac (suc n) (x ∷ xs) = nth_hmac n xs

  pub hmac_after : ℕ → LogFile → Option String
  hmac_after zero log = some genesis_hmac
  hmac_after (suc n) (lines full) = nth_hmac n full
  hmac_after (suc n) _ = none

  scan_lines-past :
      (c : ℕ) (xs : List String) (scan last : AuditScan)
      → c ≤ scan.records
      → scan_lines calls (some c) xs scan ≡ ok last
      → last.checkpoint_hmac ≡ scan.checkpoint_hmac
  unfolding scan_lines
  scan_lines-past c [] scan last le h = cc
  scan_lines-past c (x ∷ xs) scan last le h =
      let (mid, chained, k) = scan_lines-cons (some c) x xs scan last h in
      scan_lines-past c xs mid last (omega (arith, chained.counted)) k
      ∙ ground (arith, chained.marked)

  scan_lines-ahead :
      (c k : ℕ) (xs : List String) (scan last : AuditScan)
      → c ≡ scan.records + suc k
      → scan.checkpoint_hmac ≡ none
      → scan_lines calls (some c) xs scan ≡ ok last
      → last.checkpoint_hmac ≡ nth_hmac k xs
  unfolding scan_lines nth_hmac entry_of
  scan_lines-ahead c k [] scan last e unset h = ground arith
  scan_lines-ahead c zero (x ∷ xs) scan last e unset h =
      let (mid, chained, k) = scan_lines-cons (some c) x xs scan last h in
      scan_lines-past c xs mid last (omega (arith, chained.counted)) k
      ∙ ground (arith, chained.marked, chained.loaded, chained.signed)
  scan_lines-ahead c (suc j) (x ∷ xs) scan last e unset h =
      let (mid, chained, k) = scan_lines-cons (some c) x xs scan last h in
      scan_lines-ahead c j xs mid last (omega (arith, chained.counted))
        (ground (arith, chained.marked)) k

  -- at the checkpoint, its HMAC is the last one
  in_step :
      (c : ℕ) (xs : List String) (scan last : AuditScan)
      → (scan.records ≡ c → scan.checkpoint_hmac ≡ some scan.previous_hmac)
      → scan_lines calls (some c) xs scan ≡ ok last
      → last.records ≡ c
      → last.checkpoint_hmac ≡ some last.previous_hmac
  unfolding scan_lines
  in_step c [] scan last at h =
      let q : scan ≡ last = cc in
      subst (λ s. s.records ≡ c → s.checkpoint_hmac ≡ some s.previous_hmac) q at
  in_step c (x ∷ xs) scan last at h =
      let (mid, chained, k) = scan_lines-cons (some c) x xs scan last h in
      in_step c xs mid last (λ e. ground (arith, chained.marked, chained.counted)) k

  start_unset : (k : ℕ) → start_hmac (some (suc k)) ≡ none
  start_unset k = ground arith

  -- What the scan knows at its end of a checkpoint.
  pub scan_log-checkpoint :
      (c : ℕ) (log : LogFile) (scan : AuditScan)
      → scan_log calls (some c) log ≡ ok scan
      → (scan.checkpoint_hmac ≡ hmac_after c log)
        × (scan.records ≡ c → scan.checkpoint_hmac ≡ some scan.previous_hmac)
  unfolding scan_log hmac_after
  scan_log-checkpoint zero missing scan h = ground arith
  scan_log-checkpoint (suc k) missing scan h = ground arith
  scan_log-checkpoint c irregular scan h = cc
  scan_log-checkpoint c (unterminated full rest) scan h = cc
  scan_log-checkpoint zero (lines full) scan h = (
    scan_lines-past 0 full (new_audit_scan (some 0)) scan (omega arith) h,
    in_step 0 full (new_audit_scan (some 0)) scan (λ e. refl) h,
  )
  scan_log-checkpoint (suc k) (lines full) scan h = (
    scan_lines-ahead (suc k) k full (new_audit_scan (some (suc k))) scan (omega arith)
        (start_unset k) h,
    in_step (suc k) full (new_audit_scan (some (suc k))) scan (λ e. absurd (omega (arith, e))) h,
  )

  -- What `_verify_anchored_unlocked` has checked where it goes on: the log has at least the records
  -- of the anchor, and after that many records its HMAC is the one in the anchor.
  pub record IsAnchored (a : AnchorVerification) (log : LogFile) (v : AuditVerification)
      : Type 0 where
    pub enough : a.records ≤ v.records
    pub recorded : hmac_after a.records log ≡ some a.last_hmac
    pub in_step : v.records ≡ a.records → v.last_hmac ≡ a.last_hmac

  check_against-ok :
      (a : AnchorVerification) (scan : AuditScan)
      → check_against calls a scan ≡ ok tt
      → (a.records ≤ scan.records) × (scan.checkpoint_hmac ≡ some a.last_hmac)
  unfolding check_against
  check_against-ok a scan h = elim (Option-cases scan.checkpoint_hmac) [
    | inl e ↦ ground arith
    | inr (t, e) ↦ ground (arith, eq_iff t a.last_hmac)
  ]

  pub scan_against-IsAnchored :
      (a : AnchorVerification) (log : LogFile) → Post (IsAnchored a log) (scan_against calls a log)
  unfolding scan_against
  scan_against-IsAnchored a log = Post-bind (scan_log calls (some a.records) log) _ (λ scan e1.
      Post-then (check_against calls a scan) _ (λ e2.
        let (after, at_end) = scan_log-checkpoint a.records log scan e1 in
        let (enough, marked) = check_against-ok a scan e2 in
        Post-ok (record {
          enough = enough;
          recorded = sym after ∙ marked;
          in_step = λ q. let k = at_end q in cc;
        })))
