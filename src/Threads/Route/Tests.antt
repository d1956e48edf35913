-- ===== src/Threads/Route/Tests.antt =====
-- Runs of the route.
use fleet_agent.Base.{◌≤◌, ◌≡◌, refl, String, true, false, none, some, [], ◌∷◌, units}
use fleet_agent.Json.{str, obj, arr, nil, cons, end, property, field}
use fleet_agent.Threads.Units.{utf16}
use fleet_agent.Threads.Title.{default_thread_title}
use fleet_agent.Threads.Route.{
  text_parts, get_user_message_text, same_text, thread_title, Persisted, Query, Opening,
  needs_thread, open_effect, View, route_view,
}
use fleet_agent.Threads.Route.Laws.{renames, renames_of, renames-once}

abbrev message : String → Persisted
message text = record { thread = some "t"; title = default_thread_title; text = units text }

renames-once_example : renames_of "t" (renames (message "Hi" ∷ message "Again" ∷ []) []) ≤ 1
renames-once_example = renames-once (message "Hi" ∷ message "Again" ∷ []) "t"

text_test :
    get_user_message_text "user" (
      arr (
        cons
          (obj (property "type" (str "text") (property "text" (str "Hi") end)))
          (cons (str "x") nil)))
    ≡ units "Hi"
unfolding get_user_message_text text_parts field utf16
text_test = refl

-- A stale list has the placeholder, and the bootstrap the name.
title_test : thread_title (some default_thread_title) (some (units "Named")) ≡ units "Named"
unfolding thread_title same_text
title_test = refl

-- A route that has opened a thread before does not open one for an empty project: it stays loading.
abbrev opened_before : Opening
opened_before = record { requested = true; is_error = false }

stuck_test :
    (open_effect (needs_thread (some "p") none (Query.succeeded [])) opened_before
      ≡ (opened_before, false))
    × (route_view "p" none (Query.succeeded []) Query.pending [] opened_before ≡ View.loading)
unfolding open_effect needs_thread route_view
stuck_test = (refl, refl)
