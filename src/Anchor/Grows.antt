-- ===== src/Anchor/Grows.antt =====
-- What an accepted checkpoint adds to the anchor.
use systeme_local.Prelude.{
  ℕ, ◌+◌, ◌-◌, ◌≤◌, ◌<◌, String, ◌≡◌, refl, sym, ap, ◌∙◌, true, false, not, ◌&&◌, Option, none,
  some, List, [], ◌∷◌, ◌++◌, arith, str_eq, eq_iff, ltb, leb, ◌==◌, Result, ok, err, ◌>>=◌,
  raise_if, Post, Post-ok, Post-bind, Post-then, raise_if-ok,
}
use mathlib.Core.Path.{subst}
use systeme_local.Anchor.Files.{LogFile, missing, irregular, unterminated, lines, object, with_line}
use systeme_local.Anchor.{
  AnchorError, integrity, validate_state, AnchorVerification, Checkpoint, AnchorCalls, AnchorScan,
  new_scan, unsigned, validate_hex_digest, required_count, is_text, decode_checkpoint,
  validate_checkpoint_identity, check_checkpoint, check_line, check_lines, verification_of,
  anchor_verify, new_checkpoint, write_if, append_tests, anchor_append, genesis_hmac,
}

pub is_text-eq : (s : String) (o : Option String) → not (is_text s o) ≡ false → o ≡ some s
is_text-eq s none h = cc
is_text-eq s (some t) h = ground (arith, eq_iff t s)

required_count-ok : (o : Option ℕ) (n : ℕ) → required_count o ≡ ok n → o ≡ some n
required_count-ok none n h = cc
required_count-ok (some m) n h = cc

module _ (calls : AnchorCalls) (log_id : String) where
  validate_hex_digest-ok :
      (o : Option String) (s : String) → validate_hex_digest calls log_id o ≡ ok s → o ≡ some s
  validate_hex_digest-ok none s h = cc
  validate_hex_digest-ok (some t) s h = ground arith

  -- what a checkpoint that is accepted leaves
  record IsNext (c : Checkpoint) (scan scan' : AnchorScan) : Type 0 where
    count : ℕ
    counted : c.records ≡ some count
    more : scan.next_records ≤ count
    next : scan'.next_records ≡ count + 1
    last : c.last_hmac ≡ some scan'.last_hmac
    linked : c.previous_checkpoint_hmac ≡ some scan.previous_checkpoint_hmac
    signed : scan'.previous_checkpoint_hmac ≡ calls.keyed_digest (unsigned c)
    one_more : scan'.checkpoints ≡ scan.checkpoints + 1

  check_checkpoint-IsNext :
      (c : Checkpoint) (scan : AnchorScan)
      → Post (IsNext c scan) (check_checkpoint calls log_id c scan)
  unfolding check_checkpoint
  check_checkpoint-IsNext c scan =
      Post-bind (validate_checkpoint_identity calls log_id c scan.checkpoint_ids) _ (λ id e1.
        Post-bind (required_count c.records) _ (λ n e2.
          Post-then (raise_if (ltb n scan.next_records) integrity) _ (λ e3.
            Post-bind (validate_hex_digest calls log_id c.last_hmac) _ (λ h e4.
              Post-then (raise_if (n == 0 && not (str_eq h genesis_hmac)) integrity) _ (λ e5.
                Post-then
                  (raise_if (not (is_text scan.previous_checkpoint_hmac c.previous_checkpoint_hmac))
                    integrity)
                  _
                  (λ e6. Post-bind (validate_hex_digest calls log_id c.checkpoint_hmac) _ (λ ch e7.
                    Post-then
                      (raise_if (not (str_eq ch (calls.keyed_digest (unsigned c)))) integrity) _
                      (λ e8. Post-ok (record {
                        count = n;
                        counted = required_count-ok c.records n e2;
                        more = let t = raise_if-ok _ _ e3 in ground arith;
                        next = refl;
                        last = validate_hex_digest-ok c.last_hmac h e4;
                        linked =
                            is_text-eq scan.previous_checkpoint_hmac c.previous_checkpoint_hmac
                              (raise_if-ok _ _ e6);
                        signed =
                            let t = raise_if-ok _ _ e8 in
                            ground (arith, eq_iff ch (calls.keyed_digest (unsigned c)));
                        one_more = refl;
                      })))))))))

  decode_checkpoint-ok :
      (c : Checkpoint) (line : String) (d : Checkpoint)
      → calls.loads line ≡ object (true, c)
      → decode_checkpoint calls log_id line ≡ ok d
      → c ≡ d
  unfolding decode_checkpoint
  decode_checkpoint-ok c line d loaded h = ground arith

  check_line-IsNext :
      (c : Checkpoint) (line : String) (scan : AnchorScan)
      → calls.loads line ≡ object (true, c)
      → Post (IsNext c scan) (check_line calls log_id line scan)
  unfolding check_line
  check_line-IsNext c line scan loaded = Post-bind (decode_checkpoint calls log_id line) _ (λ d e.
      subst (λ x. Post (IsNext c scan) (check_checkpoint calls log_id x scan))
        (decode_checkpoint-ok c line d loaded e) (check_checkpoint-IsNext c scan))

  Post-check_lines :
      (xs : List String) (line : String) (scan : AnchorScan) {P : AnchorScan → Type 0}
      → ((mid : AnchorScan)
          → check_lines calls log_id xs scan ≡ ok mid
          → Post P (check_line calls log_id line mid))
      → Post P (check_lines calls log_id (xs ++ line ∷ []) scan)
  unfolding check_lines
  Post-check_lines [] line scan {P} h =
      Post-bind (check_line calls log_id line scan) _ (λ s e. Post-ok ((h scan refl).at s e))
  Post-check_lines (x ∷ xs) line scan h =
      Post-bind (check_line calls log_id x scan) _
        (λ scan' e. Post-check_lines xs line scan' (λ mid e'. h mid (rw e e')))

  -- the anchor after a checkpoint: what it read before, and what it reads now
  record IsGrown (before : AnchorVerification) (c : Checkpoint) (v : AnchorVerification)
      : Type 0 where
    records : c.records ≡ some v.records
    last_hmac : c.last_hmac ≡ some v.last_hmac
    linked : c.previous_checkpoint_hmac ≡ some before.last_checkpoint_hmac
    signed : v.last_checkpoint_hmac ≡ calls.keyed_digest (unsigned c)
    one_more : v.checkpoints ≡ before.checkpoints + 1

  IsNext-IsGrown :
      (c : Checkpoint) (mid scan : AnchorScan)
      → IsNext c mid scan
      → IsGrown (verification_of calls log_id mid) c (verification_of calls log_id scan)
  IsNext-IsGrown c mid scan h = record {
    records =
        let q : h.count ≡ scan.next_records - 1 = omega (arith, h.next) in h.counted ∙ ap some q;
    last_hmac = h.last;
    linked = h.linked;
    signed = h.signed;
    one_more = h.one_more;
  }

  verification_of-ok :
      (r : Result AnchorError AnchorScan) (mid : AnchorScan) (v : AnchorVerification)
      → r ≡ ok mid
      → (r >>= (λ s. ok (verification_of calls log_id s))) ≡ ok v
      → v ≡ verification_of calls log_id mid
  verification_of-ok (ok s) mid v e h =
      let q : s ≡ mid = cc in
      let k : verification_of calls log_id s ≡ v = cc in sym k ∙ ap (verification_of calls log_id) q
  verification_of-ok (err x) mid v e h = cc

  verify-with_line :
      (c : Checkpoint) (line : String) (file : LogFile) (before : AnchorVerification)
      → calls.loads line ≡ object (true, c)
      → anchor_verify calls log_id file ≡ ok before
      → Post (IsGrown before c) (anchor_verify calls log_id (with_line line file))
  unfolding anchor_verify
  verify-with_line c line (lines (x ∷ xs)) before loaded e =
      Post-bind (check_lines calls log_id (x ∷ xs ++ line ∷ []) new_scan) _ (λ scan e'.
        let (mid, reached, next) =
          (Post-check_lines (x ∷ xs) line new_scan
              {P = λ s.
                (m : AnchorScan) × (check_lines calls log_id (x ∷ xs) new_scan ≡ ok m)
                × IsNext c m s}
              (λ m q. record {
                at = λ s q'. (m, q, (check_line-IsNext c line m loaded).at s q');
              })).at
            scan e' in
        Post-ok (
          subst (λ b. IsGrown b c (verification_of calls log_id scan))
            (sym (
              verification_of-ok (check_lines calls log_id (x ∷ xs) new_scan) mid before reached e))
            (IsNext-IsGrown c mid scan next)))
  verify-with_line c line missing before loaded e = cc
  verify-with_line c line irregular before loaded e = cc
  verify-with_line c line (unterminated xs r) before loaded e = cc
  verify-with_line c line (lines []) before loaded e = cc

  -- What an appended checkpoint leaves: the anchor was verified before, with fewer records, and
  -- reads now as the new checkpoint, which follows all earlier ones.
  pub record IsAppended (n : ℕ) (h : String) (file file' : LogFile) (v : AnchorVerification)
      : Type 0 where
    pub before : AnchorVerification
    pub verified_before : anchor_verify calls log_id file ≡ ok before
    pub more : before.records < n
    pub verified : anchor_verify calls log_id file' ≡ ok v
    pub records : v.records ≡ n
    pub last_hmac : v.last_hmac ≡ h
    pub one_more : v.checkpoints ≡ before.checkpoints + 1

  -- The checkpoint that an append would write reads back as it was written.
  unfoldable pub ReadsBack : String → String → ℕ → String → LogFile → Type 0
  ReadsBack id time n h file =
      (b : AnchorVerification)
      → anchor_verify calls log_id file ≡ ok b
      → calls.loads (calls.dumps (new_checkpoint calls log_id id time n h b.last_checkpoint_hmac))
        ≡ object (true, new_checkpoint calls log_id id time n h b.last_checkpoint_hmac)

  append_tests-ok :
      (n : ℕ) (h : String) (file : LogFile)
      → Post
          (λ b. (anchor_verify calls log_id file ≡ ok b) × (b.records < n))
          (append_tests calls log_id n h file)
  unfolding append_tests
  append_tests-ok n h file = Post-then (validate_state calls log_id n h) _ (λ e1.
      Post-bind (anchor_verify calls log_id file) _ (λ b e2.
        Post-then (raise_if (leb n b.records) integrity) _
          (λ e3. Post-ok (e2, let t = raise_if-ok _ _ e3 in ground arith))))

  write_if-ok :
      (A : Type 0) (r : Result AnchorError A) (written : A → LogFile) (file : LogFile)
      (v : AnchorVerification)
      → (write_if calls log_id r written file).0 ≡ ok v
      → (a : A) × (r ≡ ok a)
        × ((write_if calls log_id r written file).1 ≡ written a)
        × (anchor_verify calls log_id (written a) ≡ ok v)
  unfolding write_if
  write_if-ok A (ok a) written file v e = (a, refl, refl, e)
  write_if-ok A (err x) written file v e = cc

  -- Where the new checkpoint reads back as it is written: an append that returns has found a valid
  -- anchor with fewer records, and leaves a valid anchor that holds one more checkpoint, whose
  -- record count and last HMAC are the ones given.
  pub append-IsAppended :
      (id time : String) (n : ℕ) (h : String) (file : LogFile) (v : AnchorVerification)
      → ReadsBack id time n h file
      → (anchor_append calls log_id id time n h file).0 ≡ ok v
      → IsAppended n h file (anchor_append calls log_id id time n h file).1 v
  unfolding anchor_append ReadsBack
  append-IsAppended id time n h file v reads e =
      let (b, tests, now, verified) =
        write_if-ok AnchorVerification (append_tests calls log_id n h file) _ file v e in
      let (before, more) = (append_tests-ok n h file).at b tests in
      let c = new_checkpoint calls log_id id time n h b.last_checkpoint_hmac in
      let grown =
        (verify-with_line c (calls.dumps c) file b (reads b before) before).at v verified in
      record {
        before = b;
        verified_before = before;
        more = more;
        verified = ap (anchor_verify calls log_id) now ∙ verified;
        records = let q = grown.records in cc;
        last_hmac = let q = grown.last_hmac in cc;
        one_more = grown.one_more;
      }
