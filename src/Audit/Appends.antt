-- ===== src/Audit/Appends.antt =====
-- The log and its anchor after a verification and after an append.
use systeme_local.Prelude.{
  bind-step, ℕ, ◌+◌, ◌≤◌, String, ◌≡◌, refl, sym, ap, ◌∙◌, inl, inr, false, Option, none, some,
  List, [], ◌∷◌, ◌++◌, arith, str_eq, eq_refl, ltb, Bool-cases, Result, ok, err, ◌>>=◌, Post,
}
use mathlib.Core.Path.{subst}
use systeme_local.Anchor.Files.{LogFile, missing, irregular, unterminated, lines, object, with_line}
use systeme_local.Anchor.{AnchorError, AnchorVerification, AnchorCalls, anchor_verify, mem}
use systeme_local.Anchor.Grows.{ReadsBack, append-IsAppended}
use systeme_local.Audit.{
  AuditError, AuditVerification, AuditCalls, AuditScan, Fresh, new_audit_scan, anchored_result,
  with_checkpoints, unsigned_record, check_record, scan_line, scan_lines, verified_scan, scan_log,
  verify_log, new_record, append_verified, scan_against, catch_up, counted, caught_up,
  verify_against, verify_anchored,
}
use systeme_local.Audit.Sound.{IsAnchored, hmac_after, scan_against-IsAnchored}

module _ {V : Type 0} (calls : AuditCalls V) where
  abbrev scan_after : Fresh → V → AuditScan → AuditScan
  scan_after fresh event scan = record {
    previous_hmac =
        calls.entry_digest
          (unsigned_record calls (new_record calls fresh event (verified_scan calls scan)));
    records = scan.records + 1;
    audit_ids = fresh.audit_id ∷ scan.audit_ids;
    checkpoint_hmac = scan.checkpoint_hmac;
  }

  check_record-new :
      (fresh : Fresh) (event : V) (scan : AuditScan)
      → mem fresh.audit_id scan.audit_ids ≡ false
      → check_record calls none (new_record calls fresh event (verified_scan calls scan)) scan
        ≡ ok (scan_after fresh event scan)
  unfolding check_record new_record
  check_record-new fresh event scan new =
      let d =
        calls.entry_digest
          (unsigned_record calls (new_record calls fresh event (verified_scan calls scan))) in
      rw (eq_refl scan.previous_hmac, eq_refl d, new) refl

  scan_lines-append :
      (cp : Option ℕ) (xs ys : List String) (scan : AuditScan)
      → scan_lines calls cp (xs ++ ys) scan
        ≡ (scan_lines calls cp xs scan >>= scan_lines calls cp ys)
  unfolding scan_lines
  scan_lines-append cp [] ys scan = refl
  scan_lines-append cp (x ∷ xs) ys scan =
      bind-step (scan_line calls cp x scan) _ (scan_lines calls cp xs) (scan_lines calls cp ys)
        (λ mid. scan_lines-append cp xs ys mid)

  scan_line-new :
      (fresh : Fresh) (event : V) (scan : AuditScan)
      → calls.loads (calls.dumps (new_record calls fresh event (verified_scan calls scan)))
        ≡ object (new_record calls fresh event (verified_scan calls scan))
      → str_eq (calls.dumps (new_record calls fresh event (verified_scan calls scan))) "" ≡ false
      → mem fresh.audit_id scan.audit_ids ≡ false
      → scan_line calls none
          (calls.dumps (new_record calls fresh event (verified_scan calls scan)))
          scan
        ≡ ok (scan_after fresh event scan)
  unfolding scan_line
  scan_line-new fresh event scan reads filled new =
      rw (filled, reads) (check_record-new fresh event scan new)

  scan_log-with_line :
      (line : String) (log : LogFile) (scan : AuditScan)
      → scan_log calls none log ≡ ok scan
      → scan_log calls none (with_line line log) ≡ scan_lines calls none (line ∷ []) scan
  unfolding scan_log
  scan_log-with_line line missing scan h =
      let q : new_audit_scan none ≡ scan = cc in ap (scan_lines calls none (line ∷ [])) q
  scan_log-with_line line irregular scan h = cc
  scan_log-with_line line (unterminated full rest) scan h = cc
  scan_log-with_line line (lines full) scan h =
      scan_lines-append none full (line ∷ []) (new_audit_scan none) ∙ rw h refl

  -- Where the new record's line is not empty and reads back as it was written: if a log is
  -- verified, and the new identifier is not one of its records', then the log with the appended
  -- record is verified too, to what the append returns as the next verification.
  pub append-verifies :
      (fresh : Fresh) (event : V) (log : LogFile) (scan : AuditScan)
      → calls.loads (calls.dumps (new_record calls fresh event (verified_scan calls scan)))
        ≡ object (new_record calls fresh event (verified_scan calls scan))
      → str_eq (calls.dumps (new_record calls fresh event (verified_scan calls scan))) "" ≡ false
      → scan_log calls none log ≡ ok scan
      → mem fresh.audit_id scan.audit_ids ≡ false
      → verify_log calls (append_verified calls fresh event (verified_scan calls scan) log).1
        ≡ ok (append_verified calls fresh event (verified_scan calls scan) log).0
  unfolding verify_log append_verified scan_lines
  append-verifies fresh event log scan reads filled h new =
      rw
        (
          scan_log-with_line (calls.dumps (new_record calls fresh event (verified_scan calls scan)))
              log scan h,
          scan_line-new fresh event scan reads filled new,
        )
        refl

module _ {V : Type 0} (calls : AuditCalls V) (anchor_calls : AnchorCalls) (log_id : String) where
  -- What an anchored verification has found, and what it leaves.
  pub record IsHeld (log anchor anchor' : LogFile) (v : AuditVerification) : Type 0 where
    pub before : AnchorVerification
    pub verified_before : anchor_verify anchor_calls log_id anchor ≡ ok before
    pub enough : before.records ≤ v.records
    pub recorded : hmac_after calls before.records log ≡ some before.last_hmac
    pub after : AnchorVerification
    pub verified_after : anchor_verify anchor_calls log_id anchor' ≡ ok after
    pub same_records : after.records ≡ v.records
    pub same_hmac : after.last_hmac ≡ v.last_hmac
    pub same_checkpoints : v.anchor_checkpoints ≡ some after.checkpoints

  -- the anchor after the missing checkpoint, if there was one
  record IsLevel (anchor' : LogFile) (v : AuditVerification) (after : AnchorVerification)
      : Type 0 where
    verified : anchor_verify anchor_calls log_id anchor' ≡ ok after
    same_count : after.records ≡ v.records
    same_last : after.last_hmac ≡ v.last_hmac

  anchored_result-ok :
      (r : Result AnchorError AnchorVerification) (a : AnchorVerification)
      → anchored_result r ≡ ok a
      → r ≡ ok a
  anchored_result-ok (ok b) a h = cc
  anchored_result-ok (err e) a h = cc

  catch_up-IsLevel :
      (fresh : Fresh) (log anchor : LogFile) (a : AnchorVerification) (v : AuditVerification)
      (after : AnchorVerification)
      → ReadsBack anchor_calls log_id fresh.missed_id fresh.missed_time v.records v.last_hmac anchor
      → anchor_verify anchor_calls log_id anchor ≡ ok a
      → IsAnchored calls a log v
      → (catch_up calls anchor_calls log_id fresh a v anchor).0 ≡ ok after
      → IsLevel (catch_up calls anchor_calls log_id fresh a v anchor).1 v after
  unfolding catch_up
  catch_up-IsLevel fresh log anchor a v after reads before held h =
      elim (Bool-cases (ltb a.records v.records)) [
        | inl more ↦
            let grown =
              append-IsAppended anchor_calls log_id fresh.missed_id fresh.missed_time v.records
                v.last_hmac anchor after reads
                (anchored_result-ok _ after (rw (more, catch_up) at h)) in
            rw more (record {
              verified = grown.verified;
              same_count = grown.records;
              same_last = grown.last_hmac;
            })
        | inr level ↦
            let q : a ≡ after =
              let k : ◌≡◌ {A = Result AuditError AnchorVerification} (ok a) (ok after) =
                rw (level, catch_up) at h in
              cc in
            let n : v.records ≡ a.records = let e = held.enough in ground arith in
            rw level (record {
              verified = before ∙ ap ok q;
              same_count = ap (λ (x : AnchorVerification). x.records) (sym q) ∙ sym n;
              same_last =
                  ap (λ (x : AnchorVerification). x.last_hmac) (sym q) ∙ sym (held.in_step n);
            })
      ]

  counted-ok :
      (v w : AuditVerification) (p : Result AuditError AnchorVerification × LogFile)
      → (counted calls anchor_calls log_id v p).0 ≡ ok w
      → (a : AnchorVerification) × (p.0 ≡ ok a)
        × ((counted calls anchor_calls log_id v p).1 ≡ p.1)
        × (with_checkpoints a.checkpoints v ≡ w)
  counted-ok v w (ok a, file) h = (a, refl, refl, cc)
  counted-ok v w (err e, file) h = cc

  caught_up-IsHeld :
      (fresh : Fresh) (log anchor : LogFile) (a : AnchorVerification)
      (r : Result AuditError AuditVerification) (w : AuditVerification)
      → ReadsBack anchor_calls log_id fresh.missed_id fresh.missed_time w.records w.last_hmac anchor
      → anchor_verify anchor_calls log_id anchor ≡ ok a
      → Post (IsAnchored calls a log) r
      → (caught_up calls anchor_calls log_id fresh anchor a r).0 ≡ ok w
      → IsHeld log anchor (caught_up calls anchor_calls log_id fresh anchor a r).1 w
  unfolding caught_up
  caught_up-IsHeld fresh log anchor a (err e) w reads before held h = cc
  caught_up-IsHeld fresh log anchor a (ok v) w reads before held h =
      let k = held.at v refl in
      let (after, reached, same, q) =
        counted-ok v w (catch_up calls anchor_calls log_id fresh a v anchor) h in
      let level =
        catch_up-IsLevel fresh log anchor a v after
          (subst
            (λ (x : AuditVerification).
              ReadsBack anchor_calls log_id fresh.missed_id fresh.missed_time x.records x.last_hmac
                anchor)
            (sym q) reads)
          before k reached in
      subst (IsHeld log anchor (caught_up calls anchor_calls log_id fresh anchor a (ok v)).1) q
        (record {
          before = a;
          verified_before = before;
          enough = k.enough;
          recorded = k.recorded;
          after = after;
          verified_after = ap (anchor_verify anchor_calls log_id) same ∙ level.verified;
          same_records = level.same_count;
          same_hmac = level.same_last;
          same_checkpoints = refl;
        })

  verify_against-IsHeld :
      (fresh : Fresh) (log anchor : LogFile) (r : Result AnchorError AnchorVerification)
      (w : AuditVerification)
      → ReadsBack anchor_calls log_id fresh.missed_id fresh.missed_time w.records w.last_hmac anchor
      → anchor_verify anchor_calls log_id anchor ≡ r
      → (verify_against calls anchor_calls log_id fresh log anchor r).0 ≡ ok w
      → IsHeld log anchor (verify_against calls anchor_calls log_id fresh log anchor r).1 w
  unfolding verify_against
  verify_against-IsHeld fresh log anchor (err e) w reads before h = cc
  verify_against-IsHeld fresh log anchor (ok a) w reads before h =
      caught_up-IsHeld fresh log anchor a (scan_against calls a log) w reads before
        (scan_against-IsAnchored calls a log) h

  -- Where a missing checkpoint would read back as it is written: an anchored verification that
  -- returns has found a valid anchor, a log with at least the anchor's number of records, and
  -- after that number the anchor's HMAC; and it leaves a valid anchor with exactly the records and
  -- the last HMAC that it returns, also where the last records had no checkpoint.
  pub verify_anchored-IsHeld :
      (fresh : Fresh) (log anchor : LogFile) (v : AuditVerification)
      → ReadsBack anchor_calls log_id fresh.missed_id fresh.missed_time v.records v.last_hmac anchor
      → (verify_anchored calls anchor_calls log_id fresh log anchor).0 ≡ ok v
      → IsHeld log anchor (verify_anchored calls anchor_calls log_id fresh log anchor).1 v
  unfolding verify_anchored
  verify_anchored-IsHeld fresh log anchor v reads h =
      verify_against-IsHeld fresh log anchor (anchor_verify anchor_calls log_id anchor) v reads refl
        h
