-- ===== src/Threads/Tests.antt =====
-- The thread modules on concrete texts and messages.
use fleet_agent.Base.{
  ℕ, zero, suc, String, ◌≡◌, ◌↔◌, refl, true, false, none, some, List, [], ◌∷◌, ◌++◌, ◌==◌, ◌⊎◌,
  any, units, is_space, ok, arith, if◌then◌else◌,
}
use fleet_agent.Json.{Json, Fields, num, str, arr, obj, nil, cons, end, property, field}
use fleet_agent.Threads.Units.{is_blank}
use fleet_agent.Threads.Title.{derive_thread_title}
use fleet_agent.Threads.Title.Laws.{IsTitle, tidy, derive_thread_title-IsTitle}
use fleet_agent.Threads.Bootstrap.{validate_thread_bootstrap}
use fleet_agent.Threads.Bootstrap.Laws.{IsEnvelope, validate_iff}
use fleet_agent.Threads.Decode.{strip_reasoning_parts}
use fleet_agent.Threads.Decode.Laws.{safe_content, field-strip_reasoning_parts}
use fleet_agent.Threads.History.{
  History, Write, is_started, empty, enqueue, finished, wait_for, returned, threw, called, ended,
  IsReachable, start, after,
}
use fleet_agent.Threads.History.Chain.{by_adapter}
use fleet_agent.Threads.History.Laws.{reachable-order, reachable_wait}
use fleet_agent.Threads.Head.{Attempt, persist_thread_head_with_retry}
use fleet_agent.Threads.Head.Retry.{Succeeds, persist-Succeeds}
use fleet_agent.Threads.HeadSync
use fleet_agent.Threads.HeadSync.{
  desire, invalidate, persist, is_aborted, Sync, Task, mounted, rendered, is_current, is_optimistic,
  same_head,
}
use fleet_agent.Threads.HeadSync.Laws.{
  EndsCurrent, EndsSuperseded, current_lem, pending_lem, rendered_lem, IsStarted,
}

abbrev query : List ℕ
query = units "\n  Plan   the release\nthen more"

derive_thread_title-IsTitle_example : IsTitle (derive_thread_title query)
derive_thread_title-IsTitle_example = derive_thread_title-IsTitle query

hello-IsTitle : IsTitle (units "Plan the release")
hello-IsTitle = record {
  short = omega arith;
  visible = unfold is_blank in refl;
  tidied = unfold tidy in unfold is_space in refl;
}

abbrev envelope : Fields
envelope =
    property "schemaVersion" (num 1)
      (property "thread" (obj end) (property "messages" (arr nil) end))

validate_iff_example :
    (validate_thread_bootstrap (obj envelope) ≡ ok (obj envelope))
    ↔ ((fs : Fields) × (obj envelope ≡ obj fs) × (obj envelope ≡ obj fs) × IsEnvelope fs)
validate_iff_example = validate_iff (obj envelope) (obj envelope)

abbrev message : Fields
message = property "role" (str "assistant") (
    property "content"
      (arr (
        cons (obj (property "type" (str "Reasoning") end))
          (cons (obj (property "type" (str "text") end)) nil)))
      end)

field-strip_reasoning_parts_example : field "content" (strip_reasoning_parts message) ≡ (
    if "content" == "content"
    then safe_content (field "content" message)
    else field "content" message)
field-strip_reasoning_parts_example = field-strip_reasoning_parts "content" message

abbrev string_of : Json → String
string_of (str s) = s
string_of _ = "0"

abbrev first_write : Write
first_write = record { adapter = 0; number = 0; chained_on = none }

abbrev second_write : Write
second_write = record { adapter = 0; number = 1; chained_on = some 0 }

-- One adapter has called twice, and its first write has failed.
abbrev after_failure : History
after_failure = finished first_write (second_write ∷ []) false (enqueue 0 (enqueue 0 empty))

after_failure-IsReachable : IsReachable after_failure
after_failure-IsReachable = after (after (after start (called 0)) (called 0)) (
    ended [] (second_write ∷ []) first_write false (unfold enqueue in refl)
      (unfold is_started in refl))

-- Before that, the second write cannot settle, and then it can.
chain_test :
    (is_started second_write (enqueue 0 (enqueue 0 empty)).pending ≡ false)
    × (is_started second_write after_failure.pending ≡ true)
unfolding is_started enqueue finished
chain_test = (refl, refl)

reachable-order_example :
    by_adapter 0 after_failure.calls
    ≡ by_adapter 0 after_failure.settled ++ by_adapter 0 after_failure.pending
reachable-order_example = reachable-order after_failure-IsReachable 0

-- Its only write has failed.
abbrev failed_write : History
failed_write = finished first_write [] false (enqueue 0 empty)

failed_write-IsReachable : IsReachable failed_write
failed_write-IsReachable =
    after (after start (called 0))
      (ended [] [] first_write false (unfold enqueue in refl) (unfold is_started in refl))

reachable_wait_example :
    ((wait_for failed_write.barrier true failed_write ≡ (returned, failed_write))
      × (failed_write.barrier ≡ none))
    ⊎ (((wait_for failed_write.barrier true failed_write).0 ≡ threw)
        × (wait_for
              (wait_for failed_write.barrier true failed_write).1.barrier
              true
              (wait_for failed_write.barrier true failed_write).1
            ≡ (returned, (wait_for failed_write.barrier true failed_write).1))
        × (wait_for failed_write.barrier false failed_write ≡ (threw, failed_write)))
reachable_wait_example = reachable_wait failed_write-IsReachable (unfold finished in refl)

-- The first request is refused, and the second one taken.
abbrev attempts : ℕ → Attempt
attempts zero = record {
  current = true;
  written = true;
  current_when_written = true;
  accepted = false;
  current_when_accepted = true;
  current_when_failed = true;
}
attempts (suc n) = record {
  current = true;
  written = true;
  current_when_written = true;
  accepted = true;
  current_when_accepted = true;
  current_when_failed = true;
}

persist-Succeeds_example :
    ((persist_thread_head_with_retry 3 attempts).0 ≡ true) ↔ Succeeds attempts 0 3
persist-Succeeds_example = persist-Succeeds 3 attempts

-- A branch head is shown for the first time.
abbrev shown : Sync
shown = rendered (some "m1") false false (mounted none)

abbrev shown_task : Task
shown_task = record { generation = 1; controller = 0; head = some "m1" }

shown-IsReachable : HeadSync.IsReachable shown
shown-IsReachable = HeadSync.after (HeadSync.start none) (HeadSync.renders (some "m1") false false)

shown_task-current :
    (shown.tasks ≡ shown_task ∷ [])
    × (is_current shown_task shown ≡ true)
    × (shown.pending_head ≡ some (some "m1"))
unfolding rendered desire invalidate persist same_head is_optimistic is_current is_aborted
shown_task-current = (refl, refl, refl)

current_lem_example :
    EndsCurrent shown_task [] true shown
      (fleet_agent.Threads.HeadSync.ended shown_task [] true shown)
    ⊎ EndsSuperseded shown_task [] shown
        (fleet_agent.Threads.HeadSync.ended shown_task [] true shown)
current_lem_example = current_lem shown-IsReachable [] [] shown_task true shown_task-current.0

pending_lem_example : any (λ u. is_current u shown) shown.tasks ≡ true
pending_lem_example = pending_lem {head = some "m1"} shown-IsReachable shown_task-current.2

rendered_lem_example :
    (shown.tasks ≡ (mounted none).tasks)
    ⊎ (IsStarted (some "m1") (mounted none) shown
        × (false ≡ false)
        × (is_optimistic (some "m1") ≡ false)
        × (((mounted none).loaded ≡ true) ⊎ (false ≡ false)))
rendered_lem_example = rendered_lem (some "m1") false false (mounted none)
