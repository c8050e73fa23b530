-- ===== src/Audit/Listing.antt =====
-- What `ListRunEvents` returns (internal/audit/service.go).
use ai_workflow.Base.{
  ℕ, suc, ◌+◌, ◌≤◌, ◌≡◌, refl, sym, ap, ◌∙◌, inl, inr, String, Bool, true, false, ◌&&◌, List, [],
  ◌∷◌, ◌++◌, arith, if◌then◌else◌, Bool-cases, ok, ◌==◌, eq_iff, is_blank,
}
use ai_workflow.Base.Dict.{lookup_or, lookup-insert}
use ai_workflow.Audit.{
  Event, RecordParams, Sources, Journal, create, make_event, record_event, record_drawn, draw_id,
  read_clock, of_tenant, before, insert_event, sort_events, list_by_run,
}

-- How many events pass a test.
pub count : (Event → Bool) → List Event → ℕ
count test [] = 0
count test (e ∷ es) = if test e then suc (count test es) else count test es

-- No event is earlier than the one before it.
abbrev pub StartsFrom : ℕ → List Event → Type 0
StartsFrom t [] = Unit
StartsFrom t (e ∷ es) = t ≤ e.created_at

abbrev pub Chronological : List Event → Type 0
Chronological [] = Unit
Chronological (e ∷ es) = StartsFrom e.created_at es × Chronological es

before-le : (a b : Event) → before a b ≡ true → a.created_at ≤ b.created_at
unfolding before
before-le a b h = ground arith

before-ge : (a b : Event) → before a b ≡ false → b.created_at ≤ a.created_at
unfolding before
before-ge a b h = ground arith

insert_event-StartsFrom :
    (t : ℕ) (a : Event) (es : List Event)
    → t ≤ a.created_at
    → StartsFrom t es
    → StartsFrom t (insert_event a es)
unfolding insert_event
insert_event-StartsFrom t a [] h s = h
insert_event-StartsFrom t a (b ∷ es) h s = elim (Bool-cases (before a b)) [
  | inl first ↦ rw first h
  | inr later ↦ rw later s
]

insert_event-Chronological :
    (a : Event) (es : List Event) → Chronological es → Chronological (insert_event a es)
unfolding insert_event
insert_event-Chronological a [] c = (tt, tt)
insert_event-Chronological a (b ∷ es) c = elim (Bool-cases (before a b)) [
  | inl first ↦ rw first (before-le a b first, c)
  | inr later ↦ rw later (
    insert_event-StartsFrom b.created_at a es (before-ge a b later) c.0,
    insert_event-Chronological a es c.1,
  )
]

sort_events-Chronological : (es : List Event) → Chronological (sort_events es)
unfolding sort_events
sort_events-Chronological [] = tt
sort_events-Chronological (a ∷ es) =
    insert_event-Chronological a (sort_events es) (sort_events-Chronological es)

module _ (test : Event → Bool) where
  count-insert_event :
      (a : Event) (es : List Event) → count test (insert_event a es) ≡ count test (a ∷ es)
  unfolding insert_event count
  count-insert_event a [] = refl
  count-insert_event a (b ∷ es) = ground (arith, count-insert_event a es)

  count-sort_events : (es : List Event) → count test (sort_events es) ≡ count test es
  unfolding sort_events count
  count-sort_events [] = refl
  count-sort_events (a ∷ es) =
      ground (arith, count-insert_event a (sort_events es), count-sort_events es)

  count-concat :
      (tenant_id : String) (es : List Event) (e : Event)
      → count test (of_tenant tenant_id (es ++ e ∷ []))
        ≡ count test (of_tenant tenant_id es)
          + (if e.tenant_id == tenant_id && test e then 1 else 0)
  unfolding of_tenant count
  count-concat tenant_id [] e = ground arith
  count-concat tenant_id (x ∷ es) e = ground (arith, count-concat tenant_id es e)

stored_events :
    (e : Event) (j : Journal) (run_id : String)
    → lookup_or [] run_id (create e j).events ≡ (
        if e.run_id == run_id
        then lookup_or [] run_id j.events ++ e ∷ []
        else lookup_or [] run_id j.events)
unfolding create
stored_events e j run_id =
    let after = lookup_or [] e.run_id j.events ++ e ∷ [] in
    ground (arith, lookup-insert e.run_id run_id after j.events, eq_iff e.run_id run_id)

count-create :
    (test : Event → Bool) (e : Event) (j : Journal) (other run_id : String)
    → count test (list_by_run (create e j) other run_id)
      ≡ count test (list_by_run j other run_id)
        + (if e.run_id == run_id && (e.tenant_id == other && test e) then 1 else 0)
unfolding list_by_run
count-create test e j other run_id =
    let old = lookup_or [] run_id j.events in
    elim (Bool-cases (e.run_id == run_id)) [
      | inl same ↦
          rw (stored_events e j run_id, same)
            (count-sort_events test (of_tenant other (old ++ e ∷ []))
              ∙ count-concat test other old e
              ∙ ap (λ n. n + (if e.tenant_id == other && test e then 1 else 0))
                  (sym (count-sort_events test (of_tenant other old))))
      | inr differs ↦ rw (stored_events e j run_id, differs) (omega arith)
    ]

recorded_journal :
    (src : Sources) (tenant_id id : String) (params : RecordParams) (j : Journal)
    → is_blank tenant_id ≡ false
    → src.new_id j.ids_drawn ≡ ok id
    → (record_event src tenant_id params j).1
      ≡ create
          (make_event id tenant_id params (src.now j.clock_reads))
          (record j { ids_drawn = suc j.ids_drawn; clock_reads = suc j.clock_reads })
unfolding record_event record_drawn draw_id read_clock
recorded_journal src tenant_id id params j given drawn = simp (given, drawn) refl

-- When an event is recorded for a tenant that is not blank and its id can be drawn, then every
-- listing of a run is in the order of the times, and by any test of events it holds as many as
-- before, and one more if it is of the event's run and tenant and the event passes the test.
pub record_event-listed :
    (src : Sources) (tenant_id id : String) (params : RecordParams) (j : Journal)
    (other run_id : String) (test : Event → Bool)
    → is_blank tenant_id ≡ false
    → src.new_id j.ids_drawn ≡ ok id
    → Chronological (list_by_run (record_event src tenant_id params j).1 other run_id)
      × (count test (list_by_run (record_event src tenant_id params j).1 other run_id)
          ≡ count test (list_by_run j other run_id)
            + (if params.run_id == run_id
                  && (tenant_id == other
                      && test (make_event id tenant_id params (src.now j.clock_reads)))
                then 1
                else 0))
unfolding make_event list_by_run
record_event-listed src tenant_id id params j other run_id test given drawn =
    let e = make_event id tenant_id params (src.now j.clock_reads) in
    let j' = record j { ids_drawn = suc j.ids_drawn; clock_reads = suc j.clock_reads } in
    (
      sort_events-Chronological
          (of_tenant other (lookup_or [] run_id (record_event src tenant_id params j).1.events)),
      ap (λ (k : Journal). count test (list_by_run k other run_id))
            (recorded_journal src tenant_id id params j given drawn)
          ∙ count-create test e j' other run_id,
    )
