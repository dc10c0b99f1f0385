-- ===== src/Store/Replay.antt =====
-- The events of a run, read back in their order and applied one after the other.
use systeme_local.Prelude.{
  ℕ, ◌≤◌, ◌≡◌, refl, sym, ap, ◌∙◌, inl, inr, Bool, true, ◌||◌, List, [], ◌∷◌, ◌++◌, arith, leb,
  ◌==◌, Bool-cases, Result, ok, err, ◌>>=◌, any, All, bind-ok, bind-step,
}
use systeme_local.Lifecycle.Events.{LifecycleEvent}
use systeme_local.Lifecycle.{LifecycleError, ProviderRunState, apply_lifecycle_event, at_sequence}
use systeme_local.Store.Rows.{StoreCalls, EventRow, event_from_row}
use mathlib.Core.Path.{subst}
use systeme_local.Store.{
  insert_by_sequence, by_sequence, corrupt_transition, passed_on, replay_rows, events_from_rows,
  apply_events,
}
use systeme_local.Lifecycle.Invariant.{apply-Accepted, Reaches, further}
use systeme_local.Store.Rows.ReadBack.{event_from_row-sequence}
use systeme_local.Lifecycle.Receipts.{Accepted-last, Accepted-receipts}

abbrev pub row_at : {J : Type 0} → ℕ → EventRow J → Bool
row_at n row = row.sequence == n

module _ {J : Type 0} where
  All-insert_by_sequence {κ} :
      (P : EventRow J → Type κ) (row : EventRow J) (rows : List (EventRow J))
      → All P (insert_by_sequence row rows)
      → P row × All P rows
  unfolding insert_by_sequence
  All-insert_by_sequence P row [] h = h
  All-insert_by_sequence P row (other ∷ rows) h =
      elim (Bool-cases (leb row.sequence other.sequence)) [
        | inl e ↦ rw e at h
        | inr e ↦
            let q : P other × All P (insert_by_sequence row rows) = rw e at h in
            let (c, d) = All-insert_by_sequence P row rows q.1 in (c, (q.0, d))
      ]

  pub All-by_sequence {κ} :
      (P : EventRow J → Type κ) (rows : List (EventRow J)) → All P (by_sequence rows) → All P rows
  unfolding by_sequence
  All-by_sequence P [] h = h
  All-by_sequence P (row ∷ rows) h =
      let (a, b) = All-insert_by_sequence P row (by_sequence rows) h in
      (a, All-by_sequence P rows b)

  any-insert_by_sequence :
      (p : EventRow J → Bool) (row : EventRow J) (rows : List (EventRow J))
      → any p (insert_by_sequence row rows) ≡ (p row || any p rows)
  unfolding insert_by_sequence
  any-insert_by_sequence p row [] = refl
  any-insert_by_sequence p row (other ∷ rows) =
      elim (Bool-cases (leb row.sequence other.sequence)) [
        | inl e ↦ rw e refl
        | inr e ↦ rw e (ground (arith, any-insert_by_sequence p row rows))
      ]

  pub any-by_sequence :
      (p : EventRow J → Bool) (rows : List (EventRow J)) → any p (by_sequence rows) ≡ any p rows
  unfolding by_sequence
  any-by_sequence p [] = refl
  any-by_sequence p (row ∷ rows) =
      any-insert_by_sequence p row (by_sequence rows)
      ∙ ap (λ b. p row || b) (any-by_sequence p rows)

  insert_by_sequence-last :
      (row last : EventRow J) (rows : List (EventRow J))
      → row.sequence ≤ last.sequence
      → insert_by_sequence row (rows ++ last ∷ []) ≡ insert_by_sequence row rows ++ last ∷ []
  unfolding insert_by_sequence
  insert_by_sequence-last row last [] le =
      let t : leb row.sequence last.sequence ≡ true = ground arith in rw t refl
  insert_by_sequence-last row last (other ∷ rows) le =
      elim (Bool-cases (leb row.sequence other.sequence)) [
        | inl e ↦ rw e refl
        | inr e ↦ rw e (ap (λ l. other ∷ l) (insert_by_sequence-last row last rows le))
      ]

  -- a row that comes after all others is read last
  pub by_sequence-last :
      (rows : List (EventRow J)) (last : EventRow J)
      → All (λ (row : EventRow J). row.sequence ≤ last.sequence) rows
      → by_sequence (rows ++ last ∷ []) ≡ by_sequence rows ++ last ∷ []
  unfolding by_sequence insert_by_sequence
  by_sequence-last [] last h = refl
  by_sequence-last (row ∷ rows) last h =
      ap (insert_by_sequence row) (by_sequence-last rows last h.1)
      ∙ insert_by_sequence-last row last (by_sequence rows) h.0

module _ {J : Type 0} (calls : StoreCalls J) where
  corrupt_transition-ok :
      (r : Result LifecycleError ProviderRunState) (s : ProviderRunState)
      → corrupt_transition r ≡ ok s
      → r ≡ ok s
  corrupt_transition-ok (ok t) s h = cc
  corrupt_transition-ok (err e) s h = cc

  pub passed_on-ok :
      (r : Result LifecycleError ProviderRunState) (s : ProviderRunState)
      → passed_on r ≡ ok s
      → r ≡ ok s
  passed_on-ok (ok t) s h = cc
  passed_on-ok (err e) s h = cc

  -- a replay that returns, a row at a time
  pub replay_rows-cons :
      (row : EventRow J) (rows : List (EventRow J)) (s t : ProviderRunState)
      → replay_rows calls (row ∷ rows) s ≡ ok t
      → (e : LifecycleEvent) × (mid : ProviderRunState) × (event_from_row calls row ≡ ok e)
        × (apply_lifecycle_event calls.event_fingerprint s e ≡ ok mid)
        × (replay_rows calls rows mid ≡ ok t)
  unfolding replay_rows
  replay_rows-cons row rows s t h =
      let (e, read, h') =
        bind-ok (event_from_row calls row)
          (λ e.
            corrupt_transition (apply_lifecycle_event calls.event_fingerprint s e)
            >>= replay_rows calls rows)
          h in
      let (mid, done, rest) =
        bind-ok (corrupt_transition (apply_lifecycle_event calls.event_fingerprint s e))
          (replay_rows calls rows) h' in
      (
        e,
        mid,
        read,
        corrupt_transition-ok (apply_lifecycle_event calls.event_fingerprint s e) mid done,
        rest,
      )

  pub replay_rows-append :
      (xs ys : List (EventRow J)) (s : ProviderRunState)
      → replay_rows calls (xs ++ ys) s ≡ (replay_rows calls xs s >>= replay_rows calls ys)
  unfolding replay_rows
  replay_rows-append [] ys s = refl
  replay_rows-append (x ∷ xs) ys s =
      bind-step (event_from_row calls x) _
        (λ e.
          corrupt_transition (apply_lifecycle_event calls.event_fingerprint s e)
          >>= replay_rows calls xs)
        (replay_rows calls ys)
        (λ e.
          bind-step (corrupt_transition (apply_lifecycle_event calls.event_fingerprint s e)) _
            (replay_rows calls xs) (replay_rows calls ys) (λ mid. replay_rows-append xs ys mid))

  pub replay_rows-Reaches :
      (rows : List (EventRow J)) {first : ProviderRunState} (s t : ProviderRunState)
      → Reaches calls.event_fingerprint first s
      → replay_rows calls rows s ≡ ok t
      → Reaches calls.event_fingerprint first t
  unfolding replay_rows
  replay_rows-Reaches [] {first} s t r h =
      let q : s ≡ t = cc in subst (Reaches calls.event_fingerprint first) q r
  replay_rows-Reaches (row ∷ rows) s t r h =
      let (e, mid, read, done, rest) = replay_rows-cons row rows s t h in
      replay_rows-Reaches rows mid t (further {t = s} e r done) rest

  -- no row of a replay lies behind the state
  pub replay_rows-within :
      (rows : List (EventRow J)) (s t : ProviderRunState)
      → replay_rows calls rows s ≡ ok t
      → (s.last_sequence ≤ t.last_sequence)
        × All (λ (row : EventRow J). row.sequence ≤ t.last_sequence) rows
  unfolding replay_rows
  replay_rows-within [] s t h = let q : s ≡ t = cc in rw q (omega arith, tt)
  replay_rows-within (row ∷ rows) s t h =
      let (e, mid, read, done, rest) = replay_rows-cons row rows s t h in
      let (a, b) = replay_rows-within rows mid t rest in
      let (c, d) =
        Accepted-last calls.event_fingerprint s e mid
          (apply-Accepted calls.event_fingerprint s e mid done) in
      let q = event_from_row-sequence calls row e read in (omega arith, (omega arith, b))

  -- every receipt of the state comes from a row
  pub replay_rows-receipts :
      (n : ℕ) (rows : List (EventRow J)) (s t : ProviderRunState)
      → replay_rows calls rows s ≡ ok t
      → any (at_sequence n) t.applied_events ≡ true
      → (any (at_sequence n) s.applied_events || any (row_at n) rows) ≡ true
  unfolding replay_rows
  replay_rows-receipts n [] s t h k =
      let q : s ≡ t = cc in
      let k' : any (at_sequence n) s.applied_events ≡ true =
        subst (λ (x : ProviderRunState). any (at_sequence n) x.applied_events ≡ true) (sym q) k in
      ground arith
  replay_rows-receipts n (row ∷ rows) s t h k =
      let (e, mid, read, done, rest) = replay_rows-cons row rows s t h in
      let a = replay_rows-receipts n rows mid t rest k in
      let b =
        Accepted-receipts calls.event_fingerprint n s e mid
          (apply-Accepted calls.event_fingerprint s e mid done) in
      let q = event_from_row-sequence calls row e read in ground (arith, a, b, q)

  -- reading all rows first and applying them then gives the same
  pub replay_rows-events :
      (rows : List (EventRow J)) (s t : ProviderRunState)
      → replay_rows calls rows s ≡ ok t
      → (events_from_rows calls rows >>= (λ es. apply_events calls es s)) ≡ ok t
  unfolding replay_rows events_from_rows apply_events
  replay_rows-events [] s t h = h
  replay_rows-events (row ∷ rows) s t h =
      let (e, mid, read, done, rest) = replay_rows-cons row rows s t h in
      let (es, found, k) =
        bind-ok (events_from_rows calls rows) (λ es. apply_events calls es mid)
          (replay_rows-events rows mid t rest) in
      rw (read, found, done) k
