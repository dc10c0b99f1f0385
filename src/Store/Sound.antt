-- ===== src/Store/Sound.antt =====
-- The database of runs and events, kept sound by every call.
use systeme_local.Prelude.{
  ℕ, ◌+◌, ◌≤◌, String, ◌≡◌, refl, sym, ap, ◌∙◌, inl, inr, true, false, none, some, List, [], ◌∷◌,
  ◌++◌, arith, str_eq, eq_iff, eq_refl, Bool-cases, Option-cases, ok, any, find, keep, All,
  All-append, any-append, find-append, find_last, any-find-none, any-find, keep-append,
  any-keep_and,
}
use systeme_local.Lifecycle.Events.{ProviderRun, LifecycleEvent}
use systeme_local.Lifecycle.{
  ProviderRunState, initial_run_state, apply_lifecycle_event, at_sequence,
}
use systeme_local.Store.Rows.{
  store_error, StoreCalls, RunRow, EventRow, run_from_row, run_row, event_row,
}
use mathlib.Core.Path.{subst}
use systeme_local.Store.{
  StoreDatabase, is_run, of_run, at_place, by_sequence, events_of, stored_run, replay_rows,
}
use systeme_local.Lifecycle.Invariant.{replayed, advanced, apply-Accepted}
use mathlib.Core.List.{append-nil}
use systeme_local.Lifecycle.Replay.{replayed-IsReceived}
use systeme_local.Store.Rows.ReadBack.{IsFaithful, run_from_row-row, event_from_row-row}
use systeme_local.Store.Cases.{event_run}
use systeme_local.Store.Replay.{
  row_at, All-by_sequence, any-by_sequence, by_sequence-last, replay_rows-append,
  replay_rows-within, replay_rows-receipts,
}

module _ {J : Type 0} (calls : StoreCalls J) where
  -- the row of a run is read back, and the events of the run take it to a state
  pub record IsReplayable (rows : List (EventRow J)) (row : RunRow J) : Type 0 where
    pub run : ProviderRun
    pub state : ProviderRunState
    pub read : run_from_row calls row ≡ ok run
    pub replays : replay_rows calls rows (initial_run_state run) ≡ ok state

  pub record IsSound (db : StoreDatabase J) : Type 0 where
    pub replayable :
        (id : String) (row : RunRow J)
        → find (is_run id) db.runs ≡ some row
        → IsReplayable (events_of id db) row
    pub owned : All (λ (e : EventRow J). any (is_run e.run_id) db.runs ≡ true) db.events

  -- a run that is not there has no events
  unowned-keep :
      (id : String) (runs : List (RunRow J)) (events : List (EventRow J))
      → All (λ (e : EventRow J). any (is_run e.run_id) runs ≡ true) events
      → any (is_run id) runs ≡ false
      → keep (of_run id) events ≡ []
  unowned-keep id runs [] h free = refl
  unowned-keep id runs (e ∷ events) h free = elim (Bool-cases (str_eq e.run_id id)) [
    | inl q ↦
        let same : e.run_id ≡ id = ground (arith, eq_iff e.run_id id) in
        let k : any (is_run id) runs ≡ true =
          subst (λ (x : String). any (is_run x) runs ≡ true) same h.0 in
        absurd (cc)
    | inr q ↦ rw q (unowned-keep id runs events h.1 free)
  ]

  owned-more :
      (runs more : List (RunRow J)) (events : List (EventRow J))
      → All (λ (e : EventRow J). any (is_run e.run_id) runs ≡ true) events
      → All (λ (e : EventRow J). any (is_run e.run_id) (runs ++ more) ≡ true) events
  owned-more runs more [] h = h
  owned-more runs more (e ∷ events) h =
      (ground (arith, any-append (is_run e.run_id) runs more, h.0), owned-more runs more events h.1)

  pub new_run-IsSound :
      IsFaithful calls
      → (r : ProviderRun) (db : StoreDatabase J) → IsSound db
      → IsSound (record db { runs = db.runs ++ run_row calls r ∷ [] })
  unfolding replay_rows by_sequence
  new_run-IsSound f r db h = record {
    replayable = λ id row q. elim (Option-cases (find (is_run id) db.runs)) [
      | inr (x, there) ↦
          let k = find-append (is_run id) db.runs (run_row calls r ∷ []) there in
          let same : x ≡ row = cc in
          subst (IsReplayable (events_of id db)) same (h.replayable id x there)
      | inl gone ↦
          let (own, same) = find_last (is_run id) db.runs (run_row calls r) gone q in
          let empty =
            unowned-keep id db.runs db.events h.owned (any-find-none (is_run id) db.runs gone) in
          record {
            run = r;
            state = initial_run_state r;
            read =
                subst (λ (x : RunRow J). run_from_row calls x ≡ ok r) same
                  (run_from_row-row calls f r);
            replays = rw empty refl;
          }
    ];
    owned = owned-more db.runs (run_row calls r ∷ []) db.events h.owned;
  }

  -- the number of an appended event is the next one
  new_number :
      (e : LifecycleEvent) (run : ProviderRun) (db : StoreDatabase J) (s t : ProviderRunState)
      → find (at_place e.run_id e.sequence) db.events ≡ none
      → replay_rows calls (events_of e.run_id db) (initial_run_state run) ≡ ok s
      → apply_lifecycle_event calls.event_fingerprint s e ≡ ok t
      → e.sequence ≡ s.last_sequence + 1
  new_number e run db s t gone h k = elim (apply-Accepted calls.event_fingerprint s e t k) [
    | replayed old same ↦
        let got = replayed-IsReceived calls.event_fingerprint s e t (ground (arith, old)) k in
        let a =
          replay_rows-receipts calls e.sequence (events_of e.run_id db) (initial_run_state run) s h
            (any-find (at_sequence e.sequence) s.applied_events got.found) in
        let b = any-by_sequence (row_at e.sequence) (keep (of_run e.run_id) db.events) in
        let c = any-keep_and (of_run e.run_id) (row_at e.sequence) db.events in
        let d = any-find-none (at_place e.run_id e.sequence) db.events gone in absurd (cc)
    | advanced updated next open_ fresh applied signed ↦ next
  ]

  All-below :
      (n m : ℕ) (rows : List (EventRow J))
      → n ≤ m
      → All (λ (row : EventRow J). row.sequence ≤ n) rows
      → All (λ (row : EventRow J). row.sequence ≤ m) rows
  All-below n m [] le h = h
  All-below n m (row ∷ rows) le h = (omega arith, All-below n m rows le h.1)

  -- where the event is appended, its run's rows gain one at the end
  pub appended_rows :
      (e : LifecycleEvent) (run : ProviderRun) (db : StoreDatabase J) (s t : ProviderRunState)
      → find (at_place e.run_id e.sequence) db.events ≡ none
      → replay_rows calls (events_of e.run_id db) (initial_run_state run) ≡ ok s
      → apply_lifecycle_event calls.event_fingerprint s e ≡ ok t
      → events_of e.run_id (record db { events = db.events ++ event_row calls e ∷ [] })
        ≡ events_of e.run_id db ++ event_row calls e ∷ []
  unfolding event_row
  appended_rows e run db s t gone h k =
      let next = new_number e run db s t gone h k in
      let (_, bound) =
        replay_rows-within calls (events_of e.run_id db) (initial_run_state run) s h in
      let below =
        All-by_sequence (λ (row : EventRow J). row.sequence ≤ s.last_sequence)
          (keep (of_run e.run_id) db.events) bound in
      ap by_sequence (
        keep-append (of_run e.run_id) db.events (event_row calls e ∷ [])
        ∙ rw (eq_refl e.run_id) refl)
      ∙ by_sequence-last (keep (of_run e.run_id) db.events) (event_row calls e)
          (All-below s.last_sequence e.sequence _ (omega arith) below)

  -- and the rows of another run stay as they are
  other_rows :
      (e : LifecycleEvent) (id : String) (db : StoreDatabase J)
      → str_eq e.run_id id ≡ false
      → events_of id (record db { events = db.events ++ event_row calls e ∷ [] }) ≡ events_of id db
  unfolding event_row
  other_rows e id db other =
      ap by_sequence
        (keep-append (of_run id) db.events (event_row calls e ∷ []) ∙ rw other (append-nil _))

  pub appended_replay :
      IsFaithful calls
      → (e : LifecycleEvent) (run : ProviderRun) (db : StoreDatabase J) (s t : ProviderRunState)
      → find (at_place e.run_id e.sequence) db.events ≡ none
      → replay_rows calls (events_of e.run_id db) (initial_run_state run) ≡ ok s
      → apply_lifecycle_event calls.event_fingerprint s e ≡ ok t
      → replay_rows calls
          (events_of e.run_id (record db { events = db.events ++ event_row calls e ∷ [] }))
          (initial_run_state run)
        ≡ ok t
  unfolding replay_rows
  appended_replay f e run db s t gone h k =
      rw
        (
          appended_rows e run db s t gone h k,
          replay_rows-append calls (events_of e.run_id db) (event_row calls e ∷ [])
              (initial_run_state run),
          h,
          event_from_row-row calls f e,
          k,
        )
        refl

  pub new_event-IsSound :
      IsFaithful calls
      → (e : LifecycleEvent) (run : ProviderRun) (db : StoreDatabase J) → IsSound db
      → stored_run calls e.run_id store_error db ≡ ok run
      → find (at_place e.run_id e.sequence) db.events ≡ none
      → (s t : ProviderRunState)
      → replay_rows calls (events_of e.run_id db) (initial_run_state run) ≡ ok s
      → apply_lifecycle_event calls.event_fingerprint s e ≡ ok t
      → IsSound (record db { events = db.events ++ event_row calls e ∷ [] })
  unfolding event_row
  new_event-IsSound f e run db h stored gone s t before applied =
      let (row, there, read) = event_run calls e db run stored in
      record {
        replayable = λ id other found. elim (Bool-cases (str_eq e.run_id id)) [
          | inr q ↦
              subst (λ rows. IsReplayable rows other) (sym (other_rows e id db q))
                (h.replayable id other found)
          | inl q ↦
              let same : e.run_id ≡ id = ground (arith, eq_iff e.run_id id) in
              let found' : find (is_run e.run_id) db.runs ≡ some other =
                subst (λ (x : String). find (is_run x) db.runs ≡ some other) (sym same) found in
              let which : row ≡ other = cc in
              subst
                (λ (x : String).
                  IsReplayable
                    (events_of x (record db { events = db.events ++ event_row calls e ∷ [] }))
                    other)
                same
                (record {
                  run = run;
                  state = t;
                  read = subst (λ (x : RunRow J). run_from_row calls x ≡ ok run) which read;
                  replays = appended_replay f e run db s t gone before applied;
                })
        ];
        owned =
            All-append (λ (x : EventRow J). any (is_run x.run_id) db.runs ≡ true) db.events
              (event_row calls e ∷ []) h.owned (any-find (is_run e.run_id) db.runs there, tt);
      }
