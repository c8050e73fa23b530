-- ===== src/Executor/Queue.antt =====
-- The work queue of a run: `appendQueue` of internal/executor/helpers.go and the same loop at the
-- end of `continueExecution` (internal/executor/engine.go).
use ai_workflow.Base.{
  ◌≡◌, inl, inr, String, Bool, true, false, not, ◌&&◌, ◌||◌, List, [], ◌∷◌, ◌++◌, arith,
  if◌then◌else◌, Bool-cases, contains, Distinct, ◌==◌, eq_iff,
}
use ai_workflow.Base.Lists.{contains-concat, Distinct-concat}
use ai_workflow.Base.Dict.{Dict, lookup, insert, is_set, is_set-insert}

-- The queue with the set `queued` that the code keeps beside it.
pub record Frontier : Type 0 where
  pub queue : List String
  pub queued : Dict Bool

unfoldable pub mark_all : List String → Dict Bool → Dict Bool
mark_all [] queued = queued
mark_all (id ∷ ids) queued = mark_all ids (insert id true queued)

unfoldable pub offer : Dict Bool → String → Frontier → Frontier
offer executed id f =
    if is_set id executed || is_set id f.queued
    then f
    else record { queue = f.queue ++ id ∷ []; queued = insert id true f.queued }

unfoldable pub offer_all : Dict Bool → List String → Frontier → Frontier
unfolding offer
offer_all executed [] f = f
offer_all executed (id ∷ ids) f = offer_all executed ids (offer executed id f)

unfoldable pub append_queue : List String → List String → Dict Bool → List String
unfolding offer_all mark_all
append_queue existing next executed =
    (offer_all executed next (record { queue = existing; queued = mark_all existing [] })).queue

-- `queued` is the set of the queue, whose entries are distinct and not yet executed.
pub record IsFresh (executed : Dict Bool) (f : Frontier) : Type 0 where
  pub distinct : Distinct f.queue
  pub agrees : (k : String) → is_set k f.queued ≡ contains k f.queue
  pub waiting : (k : String) → contains k f.queue ≡ true → is_set k executed ≡ false

pub offer-IsFresh :
    (executed : Dict Bool) (id : String) (f : Frontier)
    → IsFresh executed f
    → IsFresh executed (offer executed id f)
unfolding offer
offer-IsFresh executed id f h = elim (Bool-cases (is_set id executed || is_set id f.queued)) [
  | inl known ↦ rw known h
  | inr new ↦ rw new (record {
    distinct = ground (arith, Distinct-concat id f.queue h.distinct, h.agrees id);
    agrees =
        λ k. ground (arith, is_set-insert id k f.queued, contains-concat k id f.queue, h.agrees k);
    waiting = λ k e. ground (arith, contains-concat k id f.queue, h.waiting k, eq_iff id k);
  })
]

pub offer_all-IsFresh :
    (executed : Dict Bool) (ids : List String) (f : Frontier)
    → IsFresh executed f
    → IsFresh executed (offer_all executed ids f)
unfolding offer_all
offer_all-IsFresh executed [] f h = h
offer_all-IsFresh executed (id ∷ ids) f h =
    offer_all-IsFresh executed ids (offer executed id f) (offer-IsFresh executed id f h)

-- What the queue holds afterwards: what it held, and what was offered and is not yet executed.
contains-offer :
    (executed : Dict Bool) (id k : String) (f : Frontier)
    → IsFresh executed f
    → contains k (offer executed id f).queue
      ≡ (contains k f.queue || id == k && not (is_set k executed))
unfolding offer
contains-offer executed id k f h = elim (Bool-cases (is_set id executed || is_set id f.queued)) [
  | inl known ↦ rw known (ground (arith, h.agrees id, h.waiting id, eq_iff id k))
  | inr new ↦ rw new (ground (arith, contains-concat k id f.queue, eq_iff id k))
]

pub contains-offer_all :
    (executed : Dict Bool) (ids : List String) (k : String) (f : Frontier)
    → IsFresh executed f
    → contains k (offer_all executed ids f).queue
      ≡ (contains k f.queue || contains k ids && not (is_set k executed))
unfolding offer_all
contains-offer_all executed [] k f h = ground arith
contains-offer_all executed (id ∷ ids) k f h = ground (
  arith,
  contains-offer executed id k f h,
  contains-offer_all executed ids k (offer executed id f) (offer-IsFresh executed id f h),
)

pub is_set-mark_all :
    (k : String) (ids : List String) (m : Dict Bool)
    → is_set k (mark_all ids m) ≡ (contains k ids || is_set k m)
unfolding mark_all
is_set-mark_all k [] m = ground arith
is_set-mark_all k (id ∷ ids) m =
    ground (arith, is_set-insert id k m, is_set-mark_all k ids (insert id true m))

start-IsFresh :
    (executed : Dict Bool) (existing : List String)
    → Distinct existing
    → ((k : String) → contains k existing ≡ true → is_set k executed ≡ false)
    → IsFresh executed (record { queue = existing; queued = mark_all existing [] })
unfolding lookup
start-IsFresh executed existing distinct waiting = record {
  distinct = distinct;
  agrees = λ k. ground (arith, is_set-mark_all k existing []);
  waiting = waiting;
}

-- Appending to a queue of distinct ids that are not executed keeps it so, and the queue then holds
-- exactly what it held and those of the appended ids that are not executed.
pub append_queue_lem :
    (existing next : List String) (executed : Dict Bool)
    → Distinct existing
    → ((k : String) → contains k existing ≡ true → is_set k executed ≡ false)
    → Distinct (append_queue existing next executed)
      × ((k : String)
          → contains k (append_queue existing next executed)
            ≡ (contains k existing || contains k next && not (is_set k executed)))
unfolding append_queue
append_queue_lem existing next executed distinct waiting =
    let start = start-IsFresh executed existing distinct waiting in
    let f : Frontier = record { queue = existing; queued = mark_all existing [] } in
    (
      (offer_all-IsFresh executed next f start).distinct,
      λ k. contains-offer_all executed next k f start,
    )
